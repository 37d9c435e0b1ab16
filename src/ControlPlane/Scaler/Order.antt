-- ===== src/ControlPlane/Scaler/Order.antt =====
-- The order in which the scaler tries hosts is a total order of their keys, and the candidates of a
-- label come sorted by it.
use jenkins_qemu_provisioner.Prelude.{
  ℕ, ◌≡◌, sym, ◌∙◌, ◌≤◌, ◌<◌, ◌⊎◌, [], ◌∷◌, All, Bool, true, false, not, List, ltb, arith,
  Bool-cases, inl, inr, IsSorted, sort-IsSorted, ◌==◌, nat_eq, nat_beq_iff, string_eq, eq_iff,
  if◌then◌else◌,
}
use jenkins_qemu_provisioner.ControlPlane.Models.{Settings, Host}
use jenkins_qemu_provisioner.ControlPlane.World.{Outside}
use jenkins_qemu_provisioner.ControlPlane.GuestImages.{ResolvedImageSelection}
use jenkins_qemu_provisioner.ControlPlane.Scaler.Eligibility.{
  host_image_bucket, before, eligible_hosts, eligible_from,
}

-- One key, and `rest` where it is equal.
abbrev by_key : ℕ → ℕ → Bool → Bool
by_key x y rest = if not (x == y) then ltb x y else rest

by_key_asymm :
    (x y : ℕ) (p q : Bool) → (p ≡ true → q ≡ false) → by_key x y p ≡ true → by_key y x q ≡ false
by_key_asymm x y p q h e = ground arith

by_key_trans :
    (x y z : ℕ) (p q r : Bool)
    → (p ≡ false → q ≡ false → r ≡ false)
    → by_key y x p ≡ false
    → by_key z y q ≡ false
    → by_key z x r ≡ false
by_key_trans x y z p q r h e f = ground arith

-- The last key decides where those before it are equal.
by_key_cases :
    (x y : ℕ) (rest : Bool) → by_key y x rest ≡ false → (x < y) ⊎ ((x ≡ y) × (rest ≡ false))
by_key_cases x y rest h = ground arith

-- The same, for a key that is compared in the other direction.
by_key_cases' :
    (x y : ℕ) (rest : Bool) → by_key x y rest ≡ false → (y < x) ⊎ ((y ≡ x) × (rest ≡ false))
by_key_cases' x y rest h = ground arith

module _ (o : Outside) (image : ResolvedImageSelection) where
  abbrev bucket : Host → ℕ
  bucket h = (host_image_bucket o h image).0

  -- The bucket alone tells the reason.
  bucket_reason :
      (a b : Host)
      → bucket a ≡ bucket b
      → (host_image_bucket o a image).1 ≡ (host_image_bucket o b image).1
  unfolding host_image_bucket
  bucket_reason a b h = ground arith

  before_lem :
      (a b : Host)
      → before o image a b
        ≡ by_key (bucket a) (bucket b) (
            by_key a.io_pressure b.io_pressure
              (by_key b.cpu_free a.cpu_free (ltb b.ram_free_mb a.ram_free_mb)))
  unfolding before
  before_lem a b = elim (Bool-cases (bucket a == bucket b)) [
    | inl same ↦
        let reasons = bucket_reason a b ((nat_beq_iff (bucket a) (bucket b)).0 same) in
        let equal =
          (eq_iff (host_image_bucket o a image).1 (host_image_bucket o b image).1).1 reasons in
        rw (same, equal) (ground arith)
    | inr other ↦ rw other (ground arith)
  ]

  before_asymm : (a b : Host) → before o image a b ≡ true → before o image b a ≡ false
  before_asymm a b h =
      before_lem b a
      ∙ by_key_asymm (bucket a) (bucket b) _ _
          (by_key_asymm a.io_pressure b.io_pressure _ _
            (by_key_asymm b.cpu_free a.cpu_free _ _ (λ e. ground arith)))
          (sym (before_lem a b) ∙ h)

  before_trans :
      (a b c : Host)
      → before o image b a ≡ false
      → before o image c b ≡ false
      → before o image c a ≡ false
  before_trans a b c p q =
      before_lem c a
      ∙ by_key_trans (bucket a) (bucket b) (bucket c) _ _ _
          (by_key_trans a.io_pressure b.io_pressure c.io_pressure _ _ _
            (by_key_trans' a.cpu_free b.cpu_free c.cpu_free _ _ _ (λ e f. ground arith)))
          (sym (before_lem b a) ∙ p) (sym (before_lem c b) ∙ q)
    where
      -- the same, for a key that is compared in the other direction
      by_key_trans' :
          (x y z : ℕ) (p q r : Bool)
          → (p ≡ false → q ≡ false → r ≡ false)
          → by_key x y p ≡ false
          → by_key y z q ≡ false
          → by_key x z r ≡ false
      by_key_trans' x y z p q r h e f = ground arith

  eligible_hosts-IsSorted :
      (s : Settings) (reading : ℕ) (hosts : List Host)
      → IsSorted (before o image) (eligible_hosts o s image reading hosts).0
  unfolding eligible_hosts
  eligible_hosts-IsSorted s reading hosts =
      sort-IsSorted (before o image) before_asymm before_trans
        (eligible_from o s image reading hosts).0

  -- A host is as good as another: it has the image warm and the other has not; or they are alike in
  -- that, and it has less pressure, or the same and more free processors, or the same and as much free
  -- memory.
  abbrev pub IsAsGood : Host → Host → Type 0
  IsAsGood a b =
      (bucket a < bucket b)
      ⊎ ((bucket a ≡ bucket b)
          × ((a.io_pressure < b.io_pressure)
              ⊎ ((a.io_pressure ≡ b.io_pressure)
                  × ((b.cpu_free < a.cpu_free)
                      ⊎ ((b.cpu_free ≡ a.cpu_free) × (b.ram_free_mb ≤ a.ram_free_mb))))))

  before-IsAsGood : (a b : Host) → before o image b a ≡ false → IsAsGood a b
  before-IsAsGood a b h = elim (by_key_cases (bucket a) (bucket b) _ (sym (before_lem b a) ∙ h)) [
    | inl warmer ↦ inl warmer
    | inr (alike, rest) ↦ inr (
      alike,
      elim (by_key_cases a.io_pressure b.io_pressure _ rest) [
        | inl calmer ↦ inl calmer
        | inr (same, rest') ↦ inr (
          same,
          elim (by_key_cases' a.cpu_free b.cpu_free _ rest') [
            | inl more ↦ inl more
            | inr (equal, rest'') ↦ inr (equal, ground arith)
          ],
        )
      ],
    )
  ]

  -- In a list of hosts, each is as good as all that come after it.
  abbrev pub IsRanked : List Host → Type 0
  IsRanked [] = Unit
  IsRanked (h ∷ hosts) = All (IsAsGood h) hosts × IsRanked hosts

  -- The candidates of a label come from the best to the worst: each is as good as all that come after
  -- it, by the state of the image, then the pressure, then the free processors, then the free memory.
  pub eligible_hosts-IsRanked :
      (s : Settings) (reading : ℕ) (hosts : List Host)
      → IsRanked (eligible_hosts o s image reading hosts).0
  eligible_hosts-IsRanked s reading hosts =
      ranked (eligible_hosts o s image reading hosts).0 (eligible_hosts-IsSorted s reading hosts)
    where
      keep :
          (h : Host) (hosts : List Host)
          → All (λ b. before o image b h ≡ false) hosts
          → All (IsAsGood h) hosts
      keep h [] m = tt
      keep h (b ∷ hosts) (first, rest) = (before-IsAsGood h b first, keep h hosts rest)

      ranked : (hosts : List Host) → IsSorted (before o image) hosts → IsRanked hosts
      ranked [] m = tt
      ranked (h ∷ hosts) (first, rest) = (keep h hosts first, ranked hosts rest)
