-- ===== src/Coordinator/Routing.antt =====
-- router.rs: a task goes to a worker that can do it, if there is one.
use mxdx.Prelude.{
  ◌≡◌, refl, sym, ◌∙◌, String, Bool, true, false, List, [], ◌∷◌, Option, some, none, if◌then◌else◌,
  arith, all, retain, All, Memᴰ, ◌⊎◌, inl, inr,
}
use mxdx.Events.{SessionTask}
use mxdx.Coordinator.Router.{WorkerEntry, Router, offers, offers_all, first, route_to, route}

-- The first worker that passes the test.
abbrev find : (WorkerEntry → Bool) → Router → Option WorkerEntry
find p [] = none
find p (w ∷ ws) = if p w then some w else find p ws

first-retain : (p : WorkerEntry → Bool) (ws : Router) → first (retain p ws) ≡ find p ws
first-retain p [] = refl
first-retain p (w ∷ ws) = ground (arith, first-retain p ws)

find-cons :
    (p : WorkerEntry → Bool) (v w : WorkerEntry) (ws : Router)
    → find p (v ∷ ws) ≡ some w
    → ((w ≡ v) × (p w ≡ true)) ⊎ (find p ws ≡ some w)
find-cons p v w ws h = ground arith

find_passes :
    (p : WorkerEntry → Bool) (ws : Router) (w : WorkerEntry)
    → find p ws ≡ some w
    → Memᴰ w ws × (p w ≡ true)
find_passes p [] w h = cc
find_passes p (v ∷ ws) w h = elim (find-cons p v w ws h) [
  | inl (e, q) ↦ (Memᴰ.head e, q)
  | inr q ↦ let (m, r) = find_passes p ws w q in (Memᴰ.tail m, r)
]

find-none : (p : WorkerEntry → Bool) (ws : Router) → find p ws ≡ none → All (λ w. p w ≡ false) ws
find-none p [] h = tt
find-none p (v ∷ ws) h = ground (arith, find-none p ws)

-- Without requirements the first worker is the first that passes.
route_to-find :
    (reqs : List String) (ws : Router) → route_to reqs ws ≡ find (λ w. offers_all reqs w.info) ws
unfolding route_to offers_all
route_to-find [] [] = refl
route_to-find [] (w ∷ ws) = refl
route_to-find (req ∷ reqs) ws = first-retain _ ws

-- A task is routed to a registered worker that offers every capability that it requires.
pub route-offers :
    (task : SessionTask) (ws : Router) (w : WorkerEntry)
    → route task ws ≡ some w
    → Memᴰ w ws × (all (offers w.info) task.required_capabilities ≡ true)
unfolding offers_all
route-offers task ws w h =
    find_passes (λ v. offers_all task.required_capabilities v.info) ws w
      (sym (route_to-find task.required_capabilities ws) ∙ h)

-- A task is left without a worker only if no registered worker offers all that it requires.
pub route_complete :
    (task : SessionTask) (ws : Router)
    → route task ws ≡ none
    → All (λ w. all (offers w.info) task.required_capabilities ≡ false) ws
unfolding offers_all
route_complete task ws h =
    find-none (λ v. offers_all task.required_capabilities v.info) ws
      (sym (route_to-find task.required_capabilities ws) ∙ h)
