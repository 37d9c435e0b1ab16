-- ===== src/ControlPlane/Provisioning/Outcome.antt =====
-- How `provision_one` ends: the lease is booting, or it is failed and its Jenkins node is deleted.
use jenkins_qemu_provisioner.Prelude.{
  false, String, ◌≡◌, refl, sym, subst, inl, inr, true, Option, none, some, List, ◌∷◌, row,
  row-write, row-append_self, row-key, ◌∙◌, arith, eq_iff, Bool-cases, string_eq,
}
use jenkins_qemu_provisioner.ControlPlane.Models.{Lease, failed}
use jenkins_qemu_provisioner.ControlPlane.World.{
  Exn, Result, ok, raised, Outside, World, Call, delete_node, get_lease, catch,
}
use jenkins_qemu_provisioner.ControlPlane.GuestImages.{Config, ResolvedImageSelection}
use jenkins_qemu_provisioner.ControlPlane.Provisioning.{
  launch, fail, booted, failed_lease, provisioning_failure, persist, rename, new_lease,
  provision_fresh, provision_lease, provision_one, is_provisioned, merged, merge_lease, write_lease,
  write_created, is_taken,
}

module _ (o : Outside) (c : Config) (label host_id : String) (image : ResolvedImageSelection) where
  -- The end of a launch of the lease: it is booting; or the launch has raised and has changed no row.
  abbrev Launched : Lease → Lease → World → Result String × World → Type 0
  Launched l old w (ok id, w') =
      (id ≡ l.lease_id)
      × (get_lease l.lease_id w' ≡ some (booted o c label host_id image (o.clock w.readings) old))
  Launched l old w (raised e, w') = get_lease l.lease_id w' ≡ get_lease l.lease_id w

  launch_ends :
      (l old : Lease) (w : World)
      → get_lease l.lease_id w ≡ some old
      → old.lease_id ≡ l.lease_id
      → Launched l old w (launch o c label host_id image l w)
  unfolding launch
  launch_ends l old w h k =
      let new = booted o c label host_id image (o.clock w.readings) old in
      ground (
        arith,
        row-write (λ (x : Lease). x.lease_id) l.lease_id new w.leases,
        eq_iff old.lease_id l.lease_id,
      )

  -- The end of a failure: the row says what was raised, and the last call asks Jenkins to delete the
  -- node of the lease.
  fail_ends :
      (l old : Lease) (exc : Exn) (w : World)
      → get_lease l.lease_id w ≡ some old
      → old.lease_id ≡ l.lease_id
      → let (r, w') = fail o c label host_id image l exc w in
        (r ≡ raised (provisioning_failure o c label host_id image l exc))
        × (get_lease l.lease_id w'
            ≡ some (failed_lease o c label host_id image (o.clock w.readings) exc old))
        × (w'.calls ≡ delete_node l.jenkins_node ∷ w.calls)
  unfolding fail
  fail_ends l old exc w h k =
      let new = failed_lease o c label host_id image (o.clock w.readings) exc old in
      ground (
        arith,
        row-write (λ (x : Lease). x.lease_id) l.lease_id new w.leases,
        eq_iff old.lease_id l.lease_id,
      )

  -- What `persist` leaves, from what `merge_lease` comes to.
  abbrev IsPersisted : Lease → Result (Unit {0}) × World → Type 0
  IsPersisted l (r, w') =
      (r ≡ ok tt)
      × (old : Lease) × (get_lease l.lease_id w' ≡ some old)
      × (old.lease_id ≡ l.lease_id)
      × (old.host_id ≡ l.host_id)

  abbrev then_created : Lease → Result (Unit {0}) × World → Result (Unit {0}) × World
  then_created l p = elim p.0 as (λ _. Result (Unit {0}) × World) [
    | ok _ ↦ write_created o c label host_id image l p.1
    | raised e ↦ (raised e, p.1)
  ]

  written :
      (l : Lease) (found : Option Lease) (w : World)
      → get_lease l.lease_id w ≡ found
      → IsPersisted l (then_created l (write_lease l found w))
  unfolding write_lease
  written l none w h =
      (refl, l, row-append_self (λ (x : Lease). x.lease_id) l w.leases h, refl, refl)
  written l (some old) w h = (
    refl,
    merged l old,
    ground (
      arith,
      row-write (λ (x : Lease). x.lease_id) l.lease_id (merged l old) w.leases,
      eq_iff l.lease_id l.lease_id,
    ),
    refl,
    refl,
  )

  merge_free :
      (l : Lease) (found : Option Lease) (w : World)
      → is_taken l w.leases ≡ false
      → merge_lease l found w ≡ write_lease l found w
  unfolding merge_lease
  merge_free l found w free = rw free refl

  -- After the new lease is merged, its row is in the state of the new lease.
  persist_ends :
      (l : Lease) (found : Option Lease) (w : World)
      → is_taken l w.leases ≡ false
      → get_lease l.lease_id w ≡ found
      → IsPersisted l (persist o c label host_id image l found w)
  unfolding persist
  persist_ends l found w free h =
      subst (λ p. IsPersisted l (then_created l p)) (sym (merge_free l found w free))
        (written l found w h)

  -- How provisioning a lease ends, from the result and the world after it. It returned: the lease is
  -- past its provisioning. It raised: the error names the lease, whose row is FAILED with the error's
  -- text, and the last call asked Jenkins to delete the node.
  abbrev pub Settled : Lease → Result String × World → Type 0
  Settled l (ok id, w') =
      (id ≡ l.lease_id)
      × (row : Lease) × (get_lease l.lease_id w' ≡ some row)
      × (is_provisioned row.state ≡ true)
  Settled l (raised e, w') =
      (exc : Exn) × (e ≡ provisioning_failure o c label host_id image l exc)
      × (row : Lease) × (get_lease l.lease_id w' ≡ some row)
      × (row.state ≡ failed)
      × (row.last_error ≡ some (o.str_exn exc))
      × (past : List Call) × (w'.calls ≡ delete_node l.jenkins_node ∷ past)

  Launched-Settled :
      (l old : Lease) (w : World)
      → get_lease l.lease_id w ≡ some old
      → old.lease_id ≡ l.lease_id
      → (r : Result String) (w' : World) → Launched l old w (r, w')
      → Settled l (elim r [ ok id ↦ (ok id, w') | raised e ↦ fail o c label host_id image l e w' ])
  Launched-Settled l old w h k (ok id) w' (same, booted_row) =
      (same, booted o c label host_id image (o.clock w.readings) old, booted_row, refl)
  Launched-Settled l old w h k (raised exc) w' kept =
      let (result, row, last_call) = fail_ends l old exc w' (kept ∙ h) k in
      failed_settled (fail o c label host_id image l exc w') result row last_call
    where
      failed_settled :
          (end : Result String × World)
          → end.0 ≡ raised (provisioning_failure o c label host_id image l exc)
          → get_lease l.lease_id end.1
            ≡ some (failed_lease o c label host_id image (o.clock w'.readings) exc old)
          → end.1.calls ≡ delete_node l.jenkins_node ∷ w'.calls
          → Settled l end
      failed_settled (ok id, w'') result row last_call = ground arith
      failed_settled (raised e, w'') result row last_call = (
        exc,
        ground arith,
        failed_lease o c label host_id image (o.clock w'.readings) exc old,
        row,
        refl,
        refl,
        w'.calls,
        last_call,
      )

  fresh-Settled :
      (l : Lease) (found : Option Lease) (w : World)
      → is_taken l w.leases ≡ false
      → get_lease l.lease_id w ≡ found
      → Settled l (provision_fresh o c label host_id image l found w)
  unfolding provision_fresh
  fresh-Settled l found w free h =
      let (ended, old, stored, same, _) = persist_ends l found w free h in
      let w' : World = (persist o c label host_id image l found w).1 in
      let end = launch o c label host_id image l w' in
      subst
        (λ r. Settled l (elim r [
          | ok _ ↦ catch (launch o c label host_id image l) (fail o c label host_id image l) w'
          | raised e ↦ (raised e, w')
        ]))
        (sym ended)
        (Launched-Settled l old w' stored same end.0 end.1 (launch_ends l old w' stored same))

  lease-Settled :
      (l : Lease) (found : Option Lease) (w : World)
      → is_taken l w.leases ≡ false
      → get_lease l.lease_id w ≡ found
      → Settled l (provision_lease o c label host_id image l found w)
  unfolding provision_lease
  lease-Settled l none w free h = fresh-Settled l none w free h
  lease-Settled l (some old) w free h = elim (Bool-cases (is_provisioned old.state)) [
    | inl past ↦
        rw past (row-key (λ (x : Lease). x.lease_id) l.lease_id old w.leases h, old, h, past)
    | inr behind ↦ rw behind (fresh-Settled l (some old) w free h)
  ]

-- The lease that `provision_one` works on: new, and with the identifier that it is given, if any.
abbrev pub lease_for :
    Outside → Config → String → String → ResolvedImageSelection → Option String → World → Lease
lease_for o c label host_id image lease_id w =
    record (rename lease_id
      (new_lease c.settings label (o.uuid_hex w.drawn) (o.clock w.readings))) {
        host_id = some host_id;
        guest_image = some image.guest_image;
        base_image_id = some image.base_image_id;
      }

-- Where no other lease has its machine or its Jenkins node, `provision_one` with an image never leaves
-- a lease half provisioned: when it returns, it returns
-- the identifier of a stored lease that is booting or further; when it raises, the error names the
-- lease, the stored lease is FAILED with the text of what went wrong, and the last call asked
-- Jenkins to delete the node of the lease.
pub provision_one_settles :
    (o : Outside) (c : Config) (label host_id : String) (image : ResolvedImageSelection)
    (lease_id : Option String) (w : World)
    → is_taken (lease_for o c label host_id image lease_id w) w.leases ≡ false
    → Settled o c label host_id image
        (lease_for o c label host_id image lease_id w)
        (provision_one o c label host_id (some image) lease_id w)
unfolding provision_one
provision_one_settles o c label host_id image lease_id w free =
    lease-Settled o c label host_id image (lease_for o c label host_id image lease_id w) _ _ free
      refl
