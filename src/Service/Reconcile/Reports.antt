-- ===== src/Service/Reconcile/Reports.antt =====
-- internal/service/reconcile/reconcile.go: which orphans a pass reports.
use delta_works.Base.{◌≡◌, true, false, List, String, All}
use delta_works.Postgres.Session.{Session}
use delta_works.Service.Reconcile.{OrphanPayload, is_among}

-- Each published orphan is new since the last pass, and is among those of this pass.
abbrev pub IsNews : List String → List String → List OrphanPayload → Type 0
IsNews last current ps =
    All (λ p. (is_among p.venue_order_id last ≡ false) × (is_among p.venue_order_id current ≡ true))
      ps
