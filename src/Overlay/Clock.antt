-- ===== src/Overlay/Clock.antt =====
-- The time rules of src/services/intraday_overlay.py. Instants and calendar dates are numbers; a
-- time zone is a parameter, as the zone database is not part of the program.
use ngv_trader.Prelude.{
  ℕ, ◌≤◌, ◌<◌, ◌≡◌, ◌↔◌, Bool, true, false, Option, none, some, arith, ltb, leb, if◌then◌else◌,
}

-- `date_of` is the calendar date of an instant in the zone, and `midnight` the instant at which a
-- date begins there.
pub record Zone : Type 0 where
  pub date_of : ℕ → ℕ
  pub midnight : ℕ → ℕ
  pub midnight_le : (d t : ℕ) → (midnight d ≤ t) ↔ (d ≤ date_of t)

module _ (zone : Zone) where
  -- `_midnight_mt`
  abbrev pub midnight_before : ℕ → ℕ
  midnight_before moment = zone.midnight (zone.date_of moment)

  -- The zone is America/Denver, and `now` the present.
  unfoldable pub is_live_stale : ℕ → Option ℕ → Option ℕ → Bool
  is_live_stale now none settled_fetched_at = false
  is_live_stale now (some live_fetched_at) none = false
  is_live_stale now (some live_fetched_at) (some settled_fetched_at) =
      if leb (midnight_before now) live_fetched_at
      then false
      else ltb (midnight_before live_fetched_at) settled_fetched_at

  -- The zone of the next three is America/Chicago.
  unfoldable pub ct_date : ℕ → ℕ
  ct_date moment = zone.date_of moment

  unfoldable pub is_overlay_superseded : Option ℕ → Option ℕ → Bool
  unfolding ct_date
  is_overlay_superseded none account_as_of = false
  is_overlay_superseded (some live_fetched_at) none = false
  is_overlay_superseded (some live_fetched_at) (some account_as_of) =
      ltb (ct_date live_fetched_at) account_as_of

  unfoldable pub superseded_cutoff : ℕ → ℕ
  superseded_cutoff account_as_of = zone.midnight account_as_of

  -- A live capture is stale exactly when it was made on a day before today's and a settled import
  -- came in after the capture's day began.
  pub is_live_stale_iff :
      (now live settled : ℕ)
      → (is_live_stale now (some live) (some settled) ≡ true)
        ↔ ((zone.date_of live < zone.date_of now) × (zone.midnight (zone.date_of live) < settled))
  unfolding is_live_stale
  is_live_stale_iff now live settled =
      let law = zone.midnight_le (zone.date_of now) live in
      (λ h. ground (arith, law.0, law.1), λ h. ground (arith, law.0, law.1))
