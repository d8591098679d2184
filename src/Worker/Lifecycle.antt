-- ===== src/Worker/Lifecycle.antt =====
-- session.rs: a session goes from claimed to running to completed, and stays there.
use mxdx.Prelude.{
  sym, subst, ◌∙◌, Bool-cases, ℕ, String, str_eq, str_eq_iff, ◌≡◌, refl, ◌≢◌, Bool, true, false,
  List, [], ◌∷◌, Option, some, none, arith, All, Option-cases, inl, inr,
}
use mxdx.Prelude.Results.{Result, ok, err, ℤ}
use mxdx.Prelude.Dict as Dict
use mxdx.Prelude.Dict.{contains_key, contains_key-get, get-insert, get-remove}
use mxdx.Events.{SessionTask, SessionStatus}
use mxdx.Worker.Session.{
  claimed, running, completed, Session, SessionManager, claim, mark_running, complete, get, remove,
  new, put, is_claimed_state, is_completed,
}

-- What the worker asks of its manager.
pub data SessionCall (Tmux : Type 0) : Type 0 where
  take : ℕ → SessionTask → SessionCall Tmux
  run : String → Option ℕ → Tmux → SessionCall Tmux
  finish : ℕ → String → SessionStatus → Option ℤ → SessionCall Tmux
  forget : String → SessionCall Tmux

-- The result is an error.
abbrev pub fails {ℓ} : {A : Type ℓ} → Result String A → Bool
fails (ok a) = false
fails (err e) = true

module _ {Tmux : Type 0} where
  abbrev pub after : SessionCall Tmux → SessionManager Tmux → SessionManager Tmux
  after (take now task) m = (claim now task m).0
  after (run uuid pid tmux) m = (mark_running uuid pid tmux m).0
  after (finish now uuid status exit_code) m = (complete now uuid status exit_code m).0
  after (forget uuid) m = (remove uuid m).0

  abbrev pub after_all : List (SessionCall Tmux) → SessionManager Tmux → SessionManager Tmux
  after_all [] m = m
  after_all (c ∷ cs) m = after_all cs (after c m)

  same_session :
      (u uuid : String) (m : SessionManager Tmux) (s t : Session Tmux)
      → get uuid m ≡ some s
      → get u m ≡ some t
      → str_eq u uuid ≡ true
      → t.state ≡ s.state
  same_session u uuid m s t h q e = let p = (str_eq_iff u uuid).0 e in cc

  after-get :
      (c : SessionCall Tmux) (uuid : String) (m : SessionManager Tmux) (s : Session Tmux)
      → c ≢ forget uuid
      → get uuid m ≡ some s
      → s.state ≡ completed
      → get uuid (after c m) ≡ some s
  unfolding claim mark_running complete
  after-get (take now task) uuid m s n h e = ground (
    arith,
    str_eq_iff task.uuid uuid,
    contains_key-get task.uuid m.sessions,
    get-insert task.uuid uuid
        (record {
          uuid = task.uuid;
          task = task;
          state = claimed;
          tmux = none;
          started_at = now;
          worker_id = m.manager_id;
          pid = none;
        })
        m.sessions,
  )
  after-get (run u pid tmux) uuid m s n h e = elim (Option-cases (get u m)) [
    | inl q ↦ rw (q, after, mark_running) h
    | inr (t, q) ↦
        rw (q, after, mark_running)
          (ground (
            arith,
            str_eq_iff u uuid,
            same_session u uuid m s t h q,
            get-insert u uuid (record t { state = running; pid = pid; tmux = some tmux })
                m.sessions,
          ))
  ]
  after-get (finish now u status exit_code) uuid m s n h e = elim (Option-cases (get u m)) [
    | inl q ↦ rw (q, after, complete) h
    | inr (t, q) ↦
        rw (q, after, complete)
          (ground (
            arith,
            str_eq_iff u uuid,
            same_session u uuid m s t h q,
            get-insert u uuid (record t { state = completed }) m.sessions,
          ))
  ]
  after-get (forget u) uuid m s n h e =
      ground (arith, str_eq_iff u uuid, get-remove u uuid m.sessions)

  still_completed :
      (uuid : String) (m : SessionManager Tmux) (s : Session Tmux)
      → get uuid m ≡ some s
      → s.state ≡ completed
      → (now : ℕ) (status : SessionStatus) (exit_code : Option ℤ)
      → ((complete now uuid status exit_code m).0 ≡ m)
        × (fails (complete now uuid status exit_code m).1 ≡ true)
  unfolding complete
  still_completed uuid m s h e now status exit_code = rw (h, e, complete) (refl, refl)

  -- A completed session stays what it is, and completing it again fails and changes nothing,
  -- whatever the worker does with its sessions, until it forgets this one.
  pub completed_is_final :
      (calls : List (SessionCall Tmux)) (uuid : String) (m : SessionManager Tmux) (s : Session Tmux)
      → All (λ c. c ≢ forget uuid) calls
      → get uuid m ≡ some s
      → s.state ≡ completed
      → (get uuid (after_all calls m) ≡ some s)
        × ((now : ℕ) (status : SessionStatus) (exit_code : Option ℤ)
            → ((complete now uuid status exit_code (after_all calls m)).0 ≡ after_all calls m)
              × (fails (complete now uuid status exit_code (after_all calls m)).1 ≡ true))
  completed_is_final [] uuid m s n h e = (h, still_completed uuid m s h e)
  completed_is_final (c ∷ cs) uuid m s n h e =
      completed_is_final cs uuid (after c m) s n.1 (after-get c uuid m s n.0 h e) e

  -- A claimed session has no terminal and no process, and a running one has a terminal.
  unfoldable pub fits : Session Tmux → Bool
  fits s = elim s.state [
    | claimed ↦ elim s.tmux [ none ↦ elim s.pid [ none ↦ true | some _ ↦ false ] | some _ ↦ false ]
    | running ↦ elim s.tmux [ none ↦ false | some _ ↦ true ]
    | completed ↦ true
  ]

  -- Each session is kept under its own identifier, belongs to the worker, and fits its state.
  abbrev pub Managed : SessionManager Tmux → Type 0
  Managed m =
      (uuid : String) (s : Session Tmux)
      → get uuid m ≡ some s
      → (s.uuid ≡ uuid) × (s.worker_id ≡ m.manager_id) × (fits s ≡ true)

  some_injective : (t s : Session Tmux) → some t ≡ some s → t ≡ s
  some_injective t s h = cc

  put-Managed :
      (uuid : String) (t : Session Tmux) (m : SessionManager Tmux)
      → Managed m
      → (t.uuid ≡ uuid) × (t.worker_id ≡ m.manager_id) × (fits t ≡ true)
      → Managed (put uuid t m)
  put-Managed uuid t m v w u s h = elim (Bool-cases (str_eq uuid u)) [
    | inl e ↦
        subst (λ x. (x.uuid ≡ u) × (x.worker_id ≡ m.manager_id) × (fits x ≡ true))
          (some_injective t s (sym (get-insert uuid u t m.sessions ∙ rw e refl) ∙ h))
          (subst (λ y. (t.uuid ≡ y) × (t.worker_id ≡ m.manager_id) × (fits t ≡ true))
            ((str_eq_iff uuid u).0 e) w)
    | inr e ↦ v u s (sym (get-insert uuid u t m.sessions ∙ rw e refl) ∙ h)
  ]

  remove-Managed : (u : String) (m : SessionManager Tmux) → Managed m → Managed (remove u m).0
  remove-Managed u m v uuid s h = elim (Bool-cases (str_eq u uuid)) [
    | inl e ↦ absurd (none_is_not_some s (sym (get-remove u uuid m.sessions ∙ rw e refl) ∙ h))
    | inr e ↦ v uuid s (sym (get-remove u uuid m.sessions ∙ rw e refl) ∙ h)
  ]
    where
      none_is_not_some : (s : Session Tmux) → ◌≡◌ {A = Option (Session Tmux)} none (some s) → ⊥
      none_is_not_some s h = cc

  claim-Managed :
      (now : ℕ) (task : SessionTask) (m : SessionManager Tmux)
      → Managed m
      → Managed (claim now task m).0
  unfolding claim fits
  claim-Managed now task m v = elim (Bool-cases (contains_key task.uuid m.sessions)) [
    | inl h ↦ rw (h, claim) v
    | inr h ↦ rw (h, claim) (put-Managed task.uuid _ m v (refl, refl, refl))
  ]

  mark_running-Managed :
      (uuid : String) (pid : Option ℕ) (tmux : Tmux) (m : SessionManager Tmux)
      → Managed m
      → Managed (mark_running uuid pid tmux m).0
  unfolding mark_running fits
  mark_running-Managed uuid pid tmux m v = elim (Option-cases (get uuid m)) [
    | inl h ↦ rw (h, mark_running) v
    | inr (s, h) ↦ elim (Bool-cases (is_claimed_state s.state)) [
      | inl c ↦
          rw (h, c, mark_running) (put-Managed uuid _ m v ((v uuid s h).0, (v uuid s h).1, refl))
      | inr c ↦ rw (h, c, mark_running) v
    ]
  ]

  complete-Managed :
      (now : ℕ) (uuid : String) (status : SessionStatus) (exit_code : Option ℤ)
      (m : SessionManager Tmux)
      → Managed m
      → Managed (complete now uuid status exit_code m).0
  unfolding complete fits
  complete-Managed now uuid status exit_code m v = elim (Option-cases (get uuid m)) [
    | inl h ↦ rw (h, complete) v
    | inr (s, h) ↦ elim (Bool-cases (is_completed s.state)) [
      | inl c ↦ rw (h, c, complete) v
      | inr c ↦ rw (h, c, complete) (put-Managed uuid _ m v ((v uuid s h).0, (v uuid s h).1, refl))
    ]
  ]

  new_is_empty :
      (worker_id uuid : String) (s : Session Tmux) → get uuid (new worker_id) ≡ some s → ⊥
  unfolding Dict.get
  new_is_empty worker_id uuid s h = cc

  -- The manager starts with this and every call keeps it: each session is kept under its own
  -- identifier and belongs to the worker; a claimed one has no terminal and no process, a running
  -- one a terminal.
  pub after_all-Managed :
      (worker_id : String) (calls : List (SessionCall Tmux))
      → Managed (after_all calls (new worker_id))
  after_all-Managed worker_id calls =
      from calls (new worker_id) (λ uuid s h. absurd (new_is_empty worker_id uuid s h))
    where
      from :
          (calls : List (SessionCall Tmux)) (m : SessionManager Tmux)
          → Managed m
          → Managed (after_all calls m)
      from [] m v = v
      from (take now task ∷ cs) m v = from cs _ (claim-Managed now task m v)
      from (run u pid tmux ∷ cs) m v = from cs _ (mark_running-Managed u pid tmux m v)
      from (finish now u status exit_code ∷ cs) m v =
          from cs _ (complete-Managed now u status exit_code m v)
      from (forget u ∷ cs) m v = from cs _ (remove-Managed u m v)
