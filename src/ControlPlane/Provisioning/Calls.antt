-- ===== src/ControlPlane/Provisioning/Calls.antt =====
-- How many Jenkins nodes `provision_one` of control_plane/services/provisioning.py asks for.
use jenkins_qemu_provisioner.Prelude.{
  Bool-cases, ℕ, suc, ◌+◌, ◌≤◌, String, Option, none, some, List, [], ◌∷◌, arith, Option-cases, inl,
  inr,
}
use jenkins_qemu_provisioner.ControlPlane.Models.{Lease}
use jenkins_qemu_provisioner.ControlPlane.World.{
  Call, create_ephemeral_node, Exn, Result, ok, raised, Outside, World, Action, catch, ◌>>=◌,
}
use jenkins_qemu_provisioner.ControlPlane.GuestImages.{ResolvedImageSelection, Config}
use jenkins_qemu_provisioner.ControlPlane.Provisioning.{
  provision_one, provision_resolved, provision_lease, provision_fresh, launch, fail, persist,
  merge_lease, write_lease, write_created, is_taken, create_lease, chosen_image,
}

-- The number of Jenkins nodes that the calls ask for.
unfoldable pub creates : List Call → ℕ
creates [] = 0
creates (create_ephemeral_node _ _ _ ∷ calls) = suc (creates calls)
creates (_ ∷ calls) = creates calls

-- The action asks for at most `n` nodes, however it ends.
abbrev pub AtMost : {A : Type 0} → ℕ → Action A → Type 0
AtMost n m = (w : World) → creates (m w).1.calls ≤ creates w.calls + n

module _ {A B : Type 0} (a b : ℕ) (m : Action A) where
  end-AtMost :
      (w : World) (f : A → Action B) (r : Result A) (w' : World)
      → creates w'.calls ≤ creates w.calls + a
      → ((x : A) → AtMost b (f x))
      → creates
          (elim r as (λ _. Result B × World) [ ok x ↦ f x w' | raised e ↦ (raised e, w') ]).1.calls
        ≤ creates w.calls + (a + b)
  end-AtMost w f (ok x) w' h hf = let k = hf x w' in omega arith
  end-AtMost w f (raised e) w' h hf = omega arith

  pub bind-AtMost :
      (f : A → Action B) → AtMost a m → ((x : A) → AtMost b (f x)) → AtMost (a + b) (m >>= f)
  bind-AtMost f hm hf w = end-AtMost w f (m w).0 (m w).1 (hm w) hf

module _ {A : Type 0} (a b : ℕ) (m : Action A) where
  ended-AtMost :
      (w : World) (f : Exn → Action A) (r : Result A) (w' : World)
      → creates w'.calls ≤ creates w.calls + a
      → ((x : Exn) → AtMost b (f x))
      → creates
          (elim r as (λ _. Result A × World) [ ok x ↦ (ok x, w') | raised e ↦ f e w' ]).1.calls
        ≤ creates w.calls + (a + b)
  ended-AtMost w f (ok x) w' h hf = omega arith
  ended-AtMost w f (raised e) w' h hf = let k = hf e w' in omega arith

  pub catch-AtMost :
      (f : Exn → Action A) → AtMost a m → ((x : Exn) → AtMost b (f x)) → AtMost (a + b) (catch m f)
  catch-AtMost f hm hf w = ended-AtMost w f (m w).0 (m w).1 (hm w) hf

module _ (o : Outside) (c : Config) (label host_id : String) (image : ResolvedImageSelection) where
  launch-AtMost : (l : Lease) → AtMost 1 (launch o c label host_id image l)
  unfolding launch creates
  launch-AtMost l w = ground arith

  fail-AtMost : (l : Lease) (e : Exn) → AtMost 0 (fail o c label host_id image l e)
  unfolding fail creates
  fail-AtMost l e w = ground arith

  merge-AtMost : (l : Lease) (found : Option Lease) → AtMost 0 (merge_lease l found)
  unfolding merge_lease creates write_lease
  merge-AtMost l none w = elim (Bool-cases (is_taken l w.leases)) [
    | inl taken ↦ rw taken (omega arith)
    | inr free ↦ rw free (omega arith)
  ]
  merge-AtMost l (some old) w = elim (Bool-cases (is_taken l w.leases)) [
    | inl taken ↦ rw taken (omega arith)
    | inr free ↦ rw free (omega arith)
  ]

  persist-AtMost :
      (l : Lease) (found : Option Lease) → AtMost 0 (persist o c label host_id image l found)
  unfolding persist
  persist-AtMost l found =
      bind-AtMost 0 0 (merge_lease l found) (λ _. write_created o c label host_id image l)
        (merge-AtMost l found) (λ _ w. omega arith)

  fresh-AtMost :
      (l : Lease) (found : Option Lease)
      → AtMost 1 (provision_fresh o c label host_id image l found)
  unfolding provision_fresh
  fresh-AtMost l found =
      bind-AtMost 0 1 (persist o c label host_id image l found)
        (λ _. catch (launch o c label host_id image l) (fail o c label host_id image l))
        (persist-AtMost l found)
        (λ _.
          catch-AtMost 1 0 (launch o c label host_id image l) (fail o c label host_id image l)
            (launch-AtMost l) (fail-AtMost l))

  lease-AtMost :
      (l : Lease) (found : Option Lease)
      → AtMost 1 (provision_lease o c label host_id image l found)
  unfolding provision_lease
  lease-AtMost l none w = fresh-AtMost l none w
  lease-AtMost l (some row) w = let h = fresh-AtMost l (some row) w in ground arith

  resolved-AtMost : (id : Option String) → AtMost 1 (provision_resolved o c label host_id image id)
  unfolding provision_resolved create_lease
  resolved-AtMost id w = lease-AtMost _ _ _

pub provision_one-AtMost :
    (o : Outside) (c : Config) (label host_id : String) (image : Option ResolvedImageSelection)
    (id : Option String)
    → AtMost 1 (provision_one o c label host_id image id)
unfolding provision_one
provision_one-AtMost o c label host_id image id w =
    elim (Option-cases (chosen_image o c label image)) [
      | inl h ↦ rw (h, provision_one) (omega arith)
      | inr (i, h) ↦ rw (h, provision_one) (resolved-AtMost o c label host_id i id w)
    ]
