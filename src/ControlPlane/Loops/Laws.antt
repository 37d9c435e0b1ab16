-- ===== src/ControlPlane/Loops/Laws.antt =====
-- The workers of control_plane/loops.py go on whatever a tick raises.
use jenkins_qemu_provisioner.Prelude.{ℕ, zero, suc, ◌≡◌, refl, arith}
use jenkins_qemu_provisioner.ControlPlane.World.{ok, raised, Outside, World}
use jenkins_qemu_provisioner.ControlPlane.GuestImages.{Config}
use jenkins_qemu_provisioner.ControlPlane.Scaler.Tick.{scale_once}
use jenkins_qemu_provisioner.ControlPlane.Reconciler.{reconcile_once}
use jenkins_qemu_provisioner.ControlPlane.Loops.{scaling_tick, scaling_worker, gc_tick, gc_worker}

module _ (o : Outside) (c : Config) where
  -- A turn of the scaling worker raises nothing.
  scaling_tick_ends : (w : World) → (scaling_tick o c w).0 ≡ ok tt
  unfolding scaling_tick
  scaling_tick_ends w = ground arith

  -- Where the scaler returns, the turn leaves the world as the reconciler does after it.
  scaling_tick_reconciles :
      (w : World)
      → (scale_once o c w).0 ≡ ok tt
      → (scaling_tick o c w).1 ≡ (reconcile_once o c.settings (scale_once o c w).1).1
  unfolding scaling_tick
  scaling_tick_reconciles w h = ground arith

  -- Where the scaler raises, the turn does nothing more: no lease is watched in it.
  scaling_tick_skips :
      (w : World) (e : _)
      → (scale_once o c w).0 ≡ raised e
      → (scaling_tick o c w).1 ≡ (scale_once o c w).1
  unfolding scaling_tick
  scaling_tick_skips w e h = ground arith

  -- After any number of passes the scaling worker has not stopped.
  scaling_worker_ends : (passes : ℕ) (w : World) → (scaling_worker o c passes w).0 ≡ ok tt
  unfolding scaling_worker
  scaling_worker_ends zero w = refl
  scaling_worker_ends (suc passes) w =
      ground (arith, scaling_tick_ends w, scaling_worker_ends passes (scaling_tick o c w).1)

  gc_tick_ends : (w : World) → (gc_tick o c w).0 ≡ ok tt
  unfolding gc_tick
  gc_tick_ends w = ground arith

  -- After any number of passes the worker that reports stale hosts has not stopped.
  gc_worker_ends : (passes : ℕ) (w : World) → (gc_worker o c passes w).0 ≡ ok tt
  unfolding gc_worker
  gc_worker_ends zero w = refl
  gc_worker_ends (suc passes) w =
      ground (arith, gc_tick_ends w, gc_worker_ends passes (gc_tick o c w).1)
