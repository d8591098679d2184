-- ===== src/Coordinator/Alerts.antt =====
-- watchlist.rs: a check reports exactly the sessions that are late.
use mxdx.Prelude.{
  ℕ, ◌+◌, ◌-◌, ◌*◌, ◌%◌, ◌^◌, ◌≤◌, ◌<◌, String, str_eq, str_eq_iff, ◌≡◌, refl, ◌∙◌, Bool, false,
  ◌&&◌, ◌||◌, List, [], ◌∷◌, ◌++◌, Option, some, none, ltb, any, arith, All, inl, inr, str_eq_refl,
  Option-cases,
}
use mxdx.Prelude.Dict.{get, insert, remove, get-insert, get-remove}
use mxdx.Prelude.Maps.{Unique, insert-Unique, remove-Unique, get-absent}
use mxdx.Coordinator.Watchlist.{
  WatchedSession, WatchAlert, heartbeat_miss, timeout, Watchlist, watch, unwatch, record_heartbeat,
  heartbeat_alerts, timeout_alerts, check_at,
}

-- The alert is of this session.
abbrev pub is_miss : String → WatchAlert → Bool
is_miss u (heartbeat_miss s w n) = str_eq s u
is_miss u (timeout s w n) = false

abbrev pub is_timeout : String → WatchAlert → Bool
is_timeout u (heartbeat_miss s w n) = false
is_timeout u (timeout s w n) = str_eq s u

-- Each session stands under its own identifier.
abbrev pub Keyed : Watchlist → Type 0
Keyed m = All (λ e. e.0 ≡ e.1.session_uuid) m

pub record Watching (m : Watchlist) : Type 0 where
  pub one_watch : Unique m
  pub keyed : Keyed m

-- A session is late: more than twice its interval has passed, where the product wraps around at 64
-- bits as that of the source does, or more than its limit.
abbrev pub is_late : ℕ → Option WatchedSession → Bool
is_late now none = false
is_late now (some s) = ltb ((s.heartbeat_interval_seconds * 2) % 2 ^ 64) (now - s.last_heartbeat)

abbrev limit_passed : Option ℕ → ℕ → Bool
limit_passed none elapsed = false
limit_passed (some limit) elapsed = ltb limit elapsed

abbrev pub is_overdue : ℕ → Option WatchedSession → Bool
is_overdue now none = false
is_overdue now (some s) = limit_passed s.timeout_seconds (now - s.started_at)

any-append :
    (p : WatchAlert → Bool) (xs ys : List WatchAlert) → any p (xs ++ ys) ≡ (any p xs || any p ys)
any-append p [] ys = refl
any-append p (x ∷ xs) ys = ground (arith, any-append p xs ys)

alerts_of :
    (now : ℕ) (u : String) (s : WatchedSession)
    → (any (is_miss u) (heartbeat_alerts now s ++ timeout_alerts now s)
        ≡ (str_eq s.session_uuid u && is_late now (some s)))
      × (any (is_timeout u) (heartbeat_alerts now s ++ timeout_alerts now s)
          ≡ (str_eq s.session_uuid u && is_overdue now (some s)))
unfolding heartbeat_alerts timeout_alerts
alerts_of now u s = ground arith

-- On a watchlist with one entry for a session, under its own identifier: a check reports a missed
-- heartbeat of a session exactly if more than twice its interval, a product that wraps around at
-- 64 bits, has passed since the last one, and a timeout exactly if it has a limit and more than
-- that has passed since its start.
pub check_at_lem :
    (now : ℕ) (u : String) (m : Watchlist)
    → Watching m
    → (any (is_miss u) (check_at now m) ≡ is_late now (get u m))
      × (any (is_timeout u) (check_at now m) ≡ is_overdue now (get u m))
unfolding check_at get
check_at_lem now u [] v = (refl, refl)
check_at_lem now u ((k, s) ∷ m) v =
    let fresh = get-absent k m v.one_watch.0 in
    let (late, overdue) =
      check_at_lem now u m (record { one_watch = v.one_watch.1; keyed = v.keyed.1 }) in
    (
      any-append (is_miss u) (heartbeat_alerts now s ++ timeout_alerts now s) (check_at now m)
          ∙ ground (
            arith,
            fresh,
            late,
            v.keyed.0,
            (alerts_of now u s).0,
            str_eq_iff k u,
            str_eq_iff s.session_uuid u,
          ),
      any-append (is_timeout u) (heartbeat_alerts now s ++ timeout_alerts now s) (check_at now m)
          ∙ ground (
            arith,
            fresh,
            overdue,
            v.keyed.0,
            (alerts_of now u s).1,
            str_eq_iff k u,
            str_eq_iff s.session_uuid u,
          ),
    )

insert-Keyed :
    (k : String) (s : WatchedSession) (m : Watchlist)
    → k ≡ s.session_uuid
    → Keyed m
    → Keyed (insert k s m)
unfolding insert
insert-Keyed k s [] e h = (e, tt)
insert-Keyed k s ((j, t) ∷ m) e h = ground (arith, insert-Keyed k s m)

pub watch-Watching : (s : WatchedSession) (m : Watchlist) → Watching m → Watching (watch s m)
unfolding watch
watch-Watching s m v = record {
  one_watch = insert-Unique s.session_uuid s m v.one_watch;
  keyed = insert-Keyed s.session_uuid s m refl v.keyed;
}

remove-Keyed : (k : String) (m : Watchlist) → Keyed m → Keyed (remove k m)
unfolding remove
remove-Keyed k [] h = tt
remove-Keyed k ((j, t) ∷ m) h = ground (arith, remove-Keyed k m)

pub unwatch-Watching : (u : String) (m : Watchlist) → Watching m → Watching (unwatch u m)
unfolding unwatch
unwatch-Watching u m v = record {
  one_watch = remove-Unique u m v.one_watch;
  keyed = remove-Keyed u m v.keyed;
}

get-Keyed :
    (u : String) (m : Watchlist) (s : WatchedSession)
    → Keyed m
    → get u m ≡ some s
    → u ≡ s.session_uuid
unfolding get
get-Keyed u [] s h g = cc
get-Keyed u ((j, t) ∷ m) s h g = ground (arith, str_eq_iff j u, get-Keyed u m s)

pub record_heartbeat-Watching :
    (now : ℕ) (u : String) (m : Watchlist) → Watching m → Watching (record_heartbeat now u m)
unfolding record_heartbeat
record_heartbeat-Watching now u m v = elim (Option-cases (get u m)) [
  | inl h ↦ rw (h, record_heartbeat) v
  | inr (s, h) ↦
      rw (h, record_heartbeat)
        (record {
          one_watch = insert-Unique u (record s { last_heartbeat = now }) m v.one_watch;
          keyed =
              insert-Keyed u (record s { last_heartbeat = now }) m (get-Keyed u m s v.keyed h)
                v.keyed;
        })
]

get-record_heartbeat :
    (now : ℕ) (u : String) (m : Watchlist) (s : WatchedSession)
    → get u m ≡ some s
    → get u (record_heartbeat now u m) ≡ some (record s { last_heartbeat = now })
unfolding record_heartbeat
get-record_heartbeat now u m s h =
    rw (h, record_heartbeat)
      (get-insert u u (record s { last_heartbeat = now }) m ∙ rw (str_eq_refl u) refl)

-- On a watchlist with one entry for a session, under its own identifier: after a heartbeat of a
-- watched session whose interval is below 2 ^ 63, a check at any later time reports a missed
-- heartbeat of it exactly if more than twice the interval has passed since that heartbeat.
pub heartbeat_quiets :
    (beat now : ℕ) (u : String) (m : Watchlist) (s : WatchedSession)
    → Watching m
    → get u m ≡ some s
    → s.heartbeat_interval_seconds < 2 ^ 63
    → beat ≤ now
    → any (is_miss u) (check_at now (record_heartbeat beat u m))
      ≡ ltb (beat + s.heartbeat_interval_seconds * 2) now
heartbeat_quiets beat now u m s v h i b =
    (check_at_lem now u (record_heartbeat beat u m) (record_heartbeat-Watching beat u m v)).0
    ∙ (rw (get-record_heartbeat beat u m s h) (ground arith))

get-unwatch : (u : String) (m : Watchlist) → get u (unwatch u m) ≡ none
unfolding unwatch
get-unwatch u m = get-remove u u m ∙ rw (str_eq_refl u) refl

-- What is no longer watched is never reported, on a watchlist with one entry for a session, under its
-- own identifier.
pub unwatch_silences :
    (now : ℕ) (u : String) (m : Watchlist)
    → Watching m
    → (any (is_miss u) (check_at now (unwatch u m)) ≡ false)
      × (any (is_timeout u) (check_at now (unwatch u m)) ≡ false)
unwatch_silences now u m v =
    let (a, b) = check_at_lem now u (unwatch u m) (unwatch-Watching u m v) in
    (a ∙ rw (get-unwatch u m) refl, b ∙ rw (get-unwatch u m) refl)
