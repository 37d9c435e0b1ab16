-- ===== src/ControlPlane/Api/Auth.antt =====
-- control_plane/auth.py, and `_bearer_token` of control_plane/api.py.
use jenkins_qemu_provisioner.Prelude.{
  ℕ, ◌+◌, ◌*◌, String, Bool, false, not, Option, none, some, or_none, starts_with, after_space,
  ◌==◌, string_eq, if◌then◌else◌,
}
use jenkins_qemu_provisioner.ControlPlane.Models.{Time, seconds}
use jenkins_qemu_provisioner.ControlPlane.World.{
  error, http_exception, Result, ok, raised, Outside, Action, pure, gets, modify, now_utc, ◌>>=◌,
  ◌>>◌,
}

module _ (o : Outside) where
  unfoldable pub secure_compare_token : String → Option String → Bool
  secure_compare_token token token_hash = elim (or_none token_hash) [
    | none ↦ false
    | some h ↦ o.hash_token token == h
  ]

  -- the token, and when it expires
  unfoldable pub new_session_token : ℕ → Action (String × Time)
  new_session_token hours = do
    token ← gets (λ w. o.token_urlsafe w.drawn)
    modify (λ w. record w { drawn = w.drawn + 1 })
    now ← now_utc o
    pure (token, now + seconds (hours * 3600))

  second_part : Option String → Result String
  second_part none = raised (error "list index out of range")
  second_part (some token) = ok token

  unfoldable pub bearer_token : Option String → Result String
  unfolding second_part starts_with after_space
  bearer_token authorization = elim (or_none authorization) [
    | none ↦ raised (http_exception 401 "missing bearer token")
    | some header ↦
        if not (starts_with (o.lower header) "bearer ")
        then raised (http_exception 401 "missing bearer token")
        else second_part (after_space header)
  ]

  -- `token = _bearer_token(authorization)`
  abbrev pub require_token : Option String → Action String
  require_token authorization w = (bearer_token authorization, w)
