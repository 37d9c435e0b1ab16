-- ===== src/ControlPlane/Gc/Laws.antt =====
-- The host that control_plane/services/gc.py calls stale is the one that the dashboard of
-- control_plane/api.py shows as stale and that the scaler does not choose.
use mathlib.Core.List.{append_assoc, append-nil}
use jenkins_qemu_provisioner.Prelude.{
  ℕ, ◌+◌, ◌≡◌, refl, sym, ap, ◌∙◌, Bool, none, some, List, [], ◌∷◌, ◌++◌, filter, map, Option-cases,
  Bool-cases, inl, inr, ltb, arith, string_eq, ◌==◌, if◌then◌else◌,
}
use jenkins_qemu_provisioner.Json.{str}
use jenkins_qemu_provisioner.ControlPlane.Models.{Settings, Time, Host, Event, seconds}
use jenkins_qemu_provisioner.ControlPlane.World.{Result, ok, raised, Outside, World, for_each}
use jenkins_qemu_provisioner.ControlPlane.Scaler.Eligibility.{is_fresh, host_schedulable}
use jenkins_qemu_provisioner.ControlPlane.Gc.{
  host_availability, report_seen, report_stale, gc_hosts_once,
}

module _ (o : Outside) (s : Settings) where
  -- The dashboard and the scaler agree: at the same reading of the clock, a host is shown as
  -- "AVAILABLE" exactly if the scaler may choose it.
  pub host_availability-host_schedulable :
      (reading : ℕ) (h : Host)
      → (host_availability s (o.clock reading) h == "AVAILABLE")
        ≡ (host_schedulable o s reading h).0
  unfolding host_availability host_schedulable is_fresh
  host_availability-host_schedulable reading h = elim (Bool-cases h.enabled) [
    | inr off ↦ rw (off, host_availability, host_schedulable) refl
    | inl on ↦ elim (Option-cases h.last_seen) [
      | inl never ↦
          rw (on, host_availability, host_schedulable)
            (rw (never, host_availability, host_schedulable) refl)
      | inr (seen, at) ↦
          elim (Bool-cases (ltb (seen + seconds s.host_stale_timeout_sec) (o.clock reading))) [
            | inl old ↦
                rw (on, host_availability, host_schedulable)
                  (rw (at, host_availability, host_schedulable) (rw old (ground arith)))
            | inr new ↦
                rw (on, host_availability, host_schedulable)
                  (rw (at, host_availability, host_schedulable) (rw new (ground arith)))
          ]
    ]
  ]

  -- The event that `gc_hosts_once` writes for a host.
  abbrev pub stale_event : Host → Event
  stale_event h = record {
    lease_id = none;
    event_type = "host.stale";
    payload =
        ("host_id", str h.host_id)
        ∷ ("last_seen", str (elim h.last_seen [ none ↦ "" | some seen ↦ o.isoformat seen ]))
        ∷ [];
  }

  is_shown_stale : Time → Host → Bool
  is_shown_stale now h = host_availability s now h == "STALE"

  one :
      (now : Time) (h : Host) (w : World)
      → report_stale s now o h w ≡ (
        ok tt,
        record w {
          events = if is_shown_stale now h then w.events ++ stale_event h ∷ [] else w.events;
        },
      )
  unfolding is_shown_stale host_availability report_stale
  one now h w = elim (Bool-cases h.enabled) [
    | inr off ↦ rw (off, host_availability, is_shown_stale, report_stale) refl
    | inl on ↦ elim (Option-cases h.last_seen) [
      | inl never ↦
          rw (on, host_availability, is_shown_stale, report_stale)
            (rw (never, host_availability, is_shown_stale, report_stale, report_seen) refl)
      | inr (seen, at) ↦ elim (Bool-cases (ltb (seen + seconds s.host_stale_timeout_sec) now)) [
        | inl old ↦
            rw (on, host_availability, is_shown_stale, report_stale)
              (rw (at, host_availability, is_shown_stale, report_stale, report_seen) (rw old refl))
        | inr new ↦
            rw (on, host_availability, is_shown_stale, report_stale)
              (rw (at, host_availability, is_shown_stale, report_stale, report_seen) (rw new refl))
      ]
    ]
  ]

  joined :
      (now : Time) (h : Host) (hosts : List Host) (events : List Event)
      → (if is_shown_stale now h then events ++ stale_event h ∷ [] else events)
          ++ map stale_event (filter (is_shown_stale now) hosts)
        ≡ events ++ map stale_event (filter (is_shown_stale now) (h ∷ hosts))
  joined now h hosts events = elim (Bool-cases (is_shown_stale now h)) [
    | inl stale ↦ rw stale (
        append_assoc events (stale_event h ∷ [])
          (map stale_event (filter (is_shown_stale now) hosts)))
    | inr other ↦ rw other refl
  ]

  -- what a turn of the loop comes to, and the turns after it
  next :
      (now : Time) (hosts : List Host) (p q : Result (Unit {0}) × World)
      → p ≡ q
      → (elim p.0 as (λ _. Result (Unit {0}) × World) [
        | ok _ ↦ for_each hosts (report_stale s now o) p.1
        | raised e ↦ (raised e, p.1)
      ])
        ≡ (elim q.0 as (λ _. Result (Unit {0}) × World) [
          | ok _ ↦ for_each hosts (report_stale s now o) q.1
          | raised e ↦ (raised e, q.1)
        ])
  next now hosts p q e =
      ap
        (λ x. elim x.0 as (λ _. Result (Unit {0}) × World) [
          | ok _ ↦ for_each hosts (report_stale s now o) x.1
          | raised e ↦ (raised e, x.1)
        ])
        e

  all :
      (now : Time) (hosts : List Host) (w : World)
      → for_each hosts (report_stale s now o) w ≡ (
        ok tt,
        record w { events = w.events ++ map stale_event (filter (is_shown_stale now) hosts) },
      )
  unfolding for_each
  all now [] w = ap (λ x. (ok tt, record w { events = x })) (sym (append-nil w.events))
  all now (h ∷ hosts) w =
      let w1 : World = record w {
        events = if is_shown_stale now h then w.events ++ stale_event h ∷ [] else w.events;
      } in
      let first : for_each (h ∷ hosts) (report_stale s now o) w
          ≡ for_each hosts (report_stale s now o) w1 =
        next now hosts (report_stale s now o h w) (ok tt, w1) (one now h w) in
      first
      ∙ all now hosts w1
      ∙ ap (λ x. (ok tt, record w { events = x })) (joined now h hosts w.events)

  -- The hosts that are called stale are those that the dashboard shows so. `gc_hosts_once` raises
  -- nothing, keeps the rows, and adds one "host.stale" event for each host whose availability is "STALE"
  -- at its reading of the clock, in the order of the rows, and no other event.
  pub gc_hosts_once_reports :
      (w : World)
      → let now = o.clock w.readings in
        gc_hosts_once o s w ≡ (
          ok tt,
          record w {
            readings = w.readings + 1;
            events =
                w.events
                ++ map stale_event (filter (λ h. host_availability s now h == "STALE") w.hosts);
          },
        )
  unfolding gc_hosts_once is_shown_stale
  gc_hosts_once_reports w =
      all (o.clock w.readings) w.hosts (record w { readings = w.readings + 1 })
