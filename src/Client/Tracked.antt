-- ===== src/Client/Tracked.antt =====
-- daemon/sessions.rs: every session of the tracker stays within its bound.
use mxdx.Prelude.{
  String, str_eq, ◌≡◌, refl, sym, subst, ◌∙◌, true, List, [], ◌∷◌, Option, some, none, length, ltb,
  ltb→lt, arith, Option-cases, Bool-cases, inl, inr,
}
use mxdx.Prelude.Bytes.{Bytes}
use mxdx.Prelude.Dict.{get, insert, remove, get-insert, get-remove}
use mxdx.Client.Tracker as Tracker
use mxdx.Client.Tracker.{
  TrackedSession, SessionTracker, new, fresh_session, track, push_line, push_output, complete,
}
use mxdx.Client.Buffers.{Bounded, push_line_lem}

-- What the daemon asks of its tracker.
pub data TrackerCall : Type 0 where
  begin : String → String → TrackerCall
  line : String → Bytes → TrackerCall
  finish : String → TrackerCall
  forget : String → TrackerCall

abbrev pub after : TrackerCall → SessionTracker → SessionTracker
after (begin uuid room) m = track uuid room m
after (line uuid text) m = push_output uuid text m
after (finish uuid) m = complete uuid m
after (forget uuid) m = Tracker.remove uuid m

abbrev pub after_all : List TrackerCall → SessionTracker → SessionTracker
after_all [] m = m
after_all (c ∷ cs) m = after_all cs (after c m)

abbrev AllBounded : SessionTracker → Type 0
AllBounded m = (uuid : String) (s : TrackedSession) → get uuid m ≡ some s → Bounded s

some_injective : (t s : TrackedSession) → some t ≡ some s → t ≡ s
some_injective t s h = cc

insert-AllBounded :
    (k : String) (t : TrackedSession) (m : SessionTracker)
    → AllBounded m
    → Bounded t
    → AllBounded (insert k t m)
insert-AllBounded k t m v b uuid s h = elim (Bool-cases (str_eq k uuid)) [
  | inl e ↦ subst Bounded (some_injective t s (sym (get-insert k uuid t m ∙ rw e refl) ∙ h)) b
  | inr e ↦ v uuid s (sym (get-insert k uuid t m ∙ rw e refl) ∙ h)
]

none_is_not_some : (s : TrackedSession) → ◌≡◌ {A = Option TrackedSession} none (some s) → ⊥
none_is_not_some s h = cc

remove-AllBounded : (k : String) (m : SessionTracker) → AllBounded m → AllBounded (remove k m)
remove-AllBounded k m v uuid s h = elim (Bool-cases (str_eq k uuid)) [
  | inl e ↦ absurd (none_is_not_some s (sym (get-remove k uuid m ∙ rw e refl) ∙ h))
  | inr e ↦ v uuid s (sym (get-remove k uuid m ∙ rw e refl) ∙ h)
]

push_line-Bounded : (text : Bytes) (s : TrackedSession) → Bounded s → Bounded (push_line text s)
push_line-Bounded text s b =
    let (large, small) = push_line_lem text s b in
    elim (Bool-cases (ltb s.max_buffer_bytes (length text))) [
      | inl h ↦ subst Bounded (sym (large (ltb→lt s.max_buffer_bytes (length text) h))) b
      | inr h ↦ (small (ground arith)).0
    ]

push_output-AllBounded :
    (uuid : String) (text : Bytes) (m : SessionTracker)
    → AllBounded m
    → AllBounded (push_output uuid text m)
unfolding push_output
push_output-AllBounded uuid text m v = elim (Option-cases (get uuid m)) [
  | inl h ↦ rw (h, push_output) v
  | inr (s, h) ↦
      rw (h, push_output)
        (insert-AllBounded uuid (push_line text s) m v (push_line-Bounded text s (v uuid s h)))
]

complete-AllBounded :
    (uuid : String) (m : SessionTracker) → AllBounded m → AllBounded (complete uuid m)
unfolding complete
complete-AllBounded uuid m v = elim (Option-cases (get uuid m)) [
  | inl h ↦ rw (h, complete) v
  | inr (s, h) ↦
      rw (h, complete) (insert-AllBounded uuid (record s { is_complete = true }) m v (v uuid s h))
]

track-AllBounded :
    (uuid room : String) (m : SessionTracker) → AllBounded m → AllBounded (track uuid room m)
unfolding track
track-AllBounded uuid room m v =
    insert-AllBounded uuid (fresh_session room) m v (refl, omega arith, refl)

after_all-AllBounded :
    (cs : List TrackerCall) (m : SessionTracker) → AllBounded m → AllBounded (after_all cs m)
after_all-AllBounded [] m v = v
after_all-AllBounded (begin uuid room ∷ cs) m v =
    after_all-AllBounded cs _ (track-AllBounded uuid room m v)
after_all-AllBounded (line uuid text ∷ cs) m v =
    after_all-AllBounded cs _ (push_output-AllBounded uuid text m v)
after_all-AllBounded (finish uuid ∷ cs) m v =
    after_all-AllBounded cs _ (complete-AllBounded uuid m v)
after_all-AllBounded (forget uuid ∷ cs) m v = after_all-AllBounded cs _ (remove-AllBounded uuid m v)

new_is_empty : (uuid : String) (s : TrackedSession) → get uuid new ≡ some s → ⊥
unfolding get
new_is_empty uuid s h = cc

-- Whatever is asked of a new tracker: for each session that it keeps, the count of the bytes is
-- that of the buffered lines, and it is at most the bound of 65536.
pub tracked-Bounded :
    (cs : List TrackerCall) (uuid : String) (s : TrackedSession)
    → get uuid (after_all cs new) ≡ some s
    → Bounded s
tracked-Bounded cs uuid s h =
    after_all-AllBounded cs new (λ u t e. absurd (new_is_empty u t e)) uuid s h
