-- ===== src/Server/Start/Threads.antt =====
-- The status of the server of src/ms_server.c and its threads.
use libms.Base.{
  ℕ, ◌≡◌, ◌⊎◌, inl, inr, refl, sym, ap, subst, ◌∙◌, Option, none, some, List, [], ◌∷◌, ◌++◌,
}
use libms.Queue.{Found, with_node, without_node}
use libms.Server.{Status, idle, starting, running}
use libms.Server.Start.{
  Phase, binding, polling, Life, ms_asnyc_start, ms_start, ms_stop, leave, Step, asked, searched,
  stopped, left, Steps, here, later,
}

-- There is no thread if the server is idle, at most one, which looks for a port, if it is starting,
-- and exactly one, which polls, if it is running.
abbrev pub InStep : Status → List Phase → Type 0
InStep idle ts = ts ≡ []
InStep starting ts = (ts ≡ []) ⊎ (ts ≡ binding ∷ [])
InStep running ts = ts ≡ polling ∷ []

Status-cases : (s : Status) → (s ≡ idle) ⊎ ((s ≡ starting) ⊎ (s ≡ running))
Status-cases idle = inl refl
Status-cases starting = inr (inl refl)
Status-cases running = inr (inr refl)

-- Where one list has a node at a place, and is another one.
no_place : (before : List Phase) (x : Phase) (after : List Phase) → [] ≡ before ++ (x ∷ after) → ⊥
no_place [] x after e = cc
no_place (y ∷ before) x after e = cc

only_place :
    (t : Phase) (before : List Phase) (x : Phase) (after : List Phase)
    → t ∷ [] ≡ before ++ (x ∷ after)
    → (before ≡ []) × (after ≡ []) × (t ≡ x)
only_place t [] x after e = (refl, cc, cc)
only_place t (y ∷ []) x after e = absurd (cc)
only_place t (y ∷ z ∷ before) x after e = absurd (cc)

abbrev IsTidy : Life → Type 0
IsTidy l = InStep l.status l.threads

ms_asnyc_start-IsTidy : (l : Life) → IsTidy l → IsTidy (ms_asnyc_start l)
unfolding ms_asnyc_start
ms_asnyc_start-IsTidy l h = elim (Status-cases l.status) [
  | inl e ↦
      let none_there : l.threads ≡ [] = subst (λ s. InStep s l.threads) e h in
      rw (ms_asnyc_start, e) (inr (ap (λ ts. binding ∷ ts) none_there))
  | inr (inl e) ↦ rw (ms_asnyc_start, e) h
  | inr (inr e) ↦ rw (ms_asnyc_start, e) h
]

-- A thread that looks for a port is the only one, and the server is starting.
binding-only :
    (s : Status) (ts : List Phase) (z : Found Phase)
    → InStep s ts
    → ts ≡ with_node z binding
    → (s ≡ starting) × (z.before ≡ []) × (z.after ≡ [])
binding-only idle ts z h at = absurd (no_place z.before binding z.after (sym h ∙ at))
binding-only starting ts z (inl h) at = absurd (no_place z.before binding z.after (sym h ∙ at))
binding-only starting ts z (inr h) at =
    let (b, a, _) = only_place binding z.before binding z.after (sym h ∙ at) in (refl, b, a)
binding-only running ts z h at =
    let (_, _, e) = only_place polling z.before binding z.after (sym h ∙ at) in absurd (cc)

polling-only :
    (s : Status) (ts : List Phase) (z : Found Phase)
    → InStep s ts
    → ts ≡ with_node z polling
    → (z.before ≡ []) × (z.after ≡ [])
polling-only idle ts z h at = absurd (no_place z.before polling z.after (sym h ∙ at))
polling-only starting ts z (inl h) at = absurd (no_place z.before polling z.after (sym h ∙ at))
polling-only starting ts z (inr h) at =
    let (_, _, e) = only_place binding z.before polling z.after (sym h ∙ at) in absurd (cc)
polling-only running ts z h at =
    let (b, a, _) = only_place polling z.before polling z.after (sym h ∙ at) in (b, a)

ms_start-IsTidy :
    (l : Life) (z : Found Phase) (port : Option ℕ)
    → l.threads ≡ with_node z binding
    → IsTidy l
    → IsTidy (ms_start l z port)
unfolding ms_start
ms_start-IsTidy l z none at h =
    let (s, b, a) = binding-only l.status l.threads z h at in rw (s, b, a) (inl refl)
ms_start-IsTidy l z (some port) at h =
    let (s, b, a) = binding-only l.status l.threads z h at in rw (b, a) refl

Step-IsTidy : (l m : Life) → Step l m → IsTidy l → IsTidy m
unfolding ms_stop leave
Step-IsTidy l m (asked k) h = ms_asnyc_start-IsTidy k h
Step-IsTidy l m (searched k z port b) h = ms_start-IsTidy k z port b h
Step-IsTidy l m (stopped k) h = h
Step-IsTidy l m (left k z p f) h =
    let (b, a) = polling-only k.status k.threads z h p in rw (b, a) refl

-- Whatever the steps are by which a server that `ms_asnyc_start` starts goes on, and whichever of
-- its threads takes them: if at first there is no thread while it is idle, none or one that looks
-- for a port while it is starting, and exactly one, which polls, while it is running, then so it
-- is in each later state.
pub Steps-InStep : (l m : Life) → InStep l.status l.threads → Steps l m → InStep m.status m.threads
Steps-InStep l m h here = h
Steps-InStep l n h (later m n2 s t) = Step-IsTidy m n2 t (Steps-InStep l m h s)

-- No thread is left, but the status says that one is on its way.
abbrev pub IsStuck : Life → Type 0
IsStuck l = (l.status ≡ starting) × (l.threads ≡ [])

Step-IsStuck : (l m : Life) → Step l m → IsStuck l → IsStuck m
unfolding ms_asnyc_start ms_stop
Step-IsStuck l m (asked k) (e, n) = rw (ms_asnyc_start, e) (e, n)
Step-IsStuck l m (searched k z port b) (e, n) =
    absurd (no_place z.before binding z.after (sym n ∙ b))
Step-IsStuck l m (stopped k) h = h
Step-IsStuck l m (left k z p f) (e, n) = absurd (no_place z.before polling z.after (sym n ∙ p))

Steps-IsStuck : (l m : Life) → IsStuck l → Steps l m → IsStuck m
Steps-IsStuck l m h here = h
Steps-IsStuck l n h (later m n2 s t) = Step-IsStuck m n2 t (Steps-IsStuck l m h s)

-- Where the only thread of a starting server finds no port, the server stays starting, with no
-- thread, in each later state.
pub ms_start-IsStuck :
    (l m : Life) (z : Found Phase)
    → l.status ≡ starting
    → without_node z ≡ []
    → Steps (ms_start l z none) m
    → IsStuck m
unfolding ms_start
ms_start-IsStuck l m z e only s = Steps-IsStuck (ms_start l z none) m (e, only) s
