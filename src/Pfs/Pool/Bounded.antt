-- ===== src/Pfs/Pool/Bounded.antt =====
-- How many connections there are.
use grage.Prelude.{
  ℕ, ◌^◌, ◌≤◌, ◌<◌, Option, none, some, List, [], ◌∷◌, ◌≡◌, refl, sym, subst, ◌==◌, ltb, ltb→lt,
  arith, length, Bool-cases, Option-cases, inl, inr, ◌⊎◌,
}
use grage.Commons.LinkedList.{LinkedList, build_list, add_node, order_always_first}
use grage.Commons.LinkedList.Link.{length-insert}
use grage.Pfs.Pool.{
  State, Outcome, exits, crashes, returns, build_and_add_pooled_connection, first_inactive,
  get_from_list, get_pooled_connection, release_connection, prepare, get_conection_turn, initialize,
  add_built,
}

-- A thread asks for a connection, with what the handshake of a new one would return, or releases
-- one.
pub data Event : Type 0 where
  acquires : ℕ → Event
  releases : ℕ → Event

-- The state after a call, which is the last one when the process ends.
abbrev after : State → Outcome → State
after s exits = s
after s crashes = s
after s (returns o s') = s'

pub step : ℕ → State → Event → State
step max_connections s (acquires socket) = after s (get_conection_turn max_connections socket s)
step max_connections s (releases p) = release_connection s p

pub run : ℕ → State → List Event → State
run max_connections s [] = s
run max_connections s (e ∷ es) = run max_connections (step max_connections s e) es

-- The list, if there is one, has a size that counts its connections, and no more than the maximum.
abbrev pub Fits : ℕ → ℕ → Option (LinkedList ℕ) → Type 0
Fits limit count none = Unit {0}
Fits limit count (some l) =
    (count ≡ limit) × (l.size ≡ length l.elements) × (length l.elements ≤ limit)

abbrev pub IsBounded : ℕ → State → Type 0
IsBounded limit s = Fits limit s.pooled_connections_max_count s.pooled_connections

-- There is room for one more.
abbrev HasRoom : ℕ → ℕ → Option (LinkedList ℕ) → Type 0
HasRoom limit count none = Unit {0}
HasRoom limit count (some l) =
    (count ≡ limit) × (l.size ≡ length l.elements) × (length l.elements < limit)

build-IsBounded :
    (limit socket : ℕ) (s : State)
    → limit < 2 ^ 31
    → IsBounded limit s
    → HasRoom limit s.pooled_connections_max_count s.pooled_connections
    → IsBounded limit (after s (build_and_add_pooled_connection socket s))
unfolding build_and_add_pooled_connection add_node
build-IsBounded limit socket s b v h = elim (Bool-cases (socket == 0)) [
  | inl e ↦ rw e v
  | inr e ↦ rw e (go s.pooled_connections h v)
]
  where
    go :
        (o : Option (LinkedList ℕ))
        → HasRoom limit s.pooled_connections_max_count o
        → IsBounded limit s
        → IsBounded limit (after s (add_built socket s o))
    go none h v = v
    go (some l) (c, z, r) v =
        let n = length-insert order_always_first s.next_pointer l.elements in
        (c, omega (arith, z, n, r, b), omega (arith, n, r))

list-IsBounded :
    (limit socket : ℕ) (s : State) (l : LinkedList ℕ)
    → limit < 2 ^ 31
    → 0 < limit
    → IsBounded limit s
    → (HasRoom limit s.pooled_connections_max_count (some l)
        → HasRoom limit s.pooled_connections_max_count s.pooled_connections)
    → Fits limit s.pooled_connections_max_count (some l)
    → IsBounded limit (after s (get_from_list socket s l))
unfolding get_from_list
list-IsBounded limit socket s l b p v room (c, z, r) = elim (Bool-cases (l.size == 0)) [
  | inl e ↦ rw e (build-IsBounded limit socket s b v (room (c, z, ground (arith, e, z, p))))
  | inr e ↦ elim (Option-cases (first_inactive s l.elements)) [
    | inl f ↦ elim (Bool-cases (ltb l.size s.pooled_connections_max_count)) [
      | inl g ↦
          let q : length l.elements < limit = omega (arith, ltb→lt _ _ g, z, c) in
          rw (e, f, g) (build-IsBounded limit socket s b v (room (c, z, q)))
      | inr g ↦ rw (e, f, g) v
    ]
    | inr (q, f) ↦ rw (e, f) v
  ]
]

get-IsBounded :
    (limit socket : ℕ) (s : State)
    → limit < 2 ^ 31
    → 0 < limit
    → IsBounded limit s
    → IsBounded limit (after s (get_pooled_connection socket s))
unfolding get_pooled_connection
get-IsBounded limit socket s b p v = go s.pooled_connections refl v
  where
    go :
        (o : Option (LinkedList ℕ))
        → s.pooled_connections ≡ o
        → Fits limit s.pooled_connections_max_count o
        → IsBounded limit (
            after s (elim o [
              | none ↦ build_and_add_pooled_connection socket s
              | some l ↦ get_from_list socket s l
            ]))
    go none e w =
        build-IsBounded limit socket s b v
          (subst (HasRoom limit s.pooled_connections_max_count) (sym e) tt)
    go (some l) e w =
        list-IsBounded limit socket s l b p v
          (λ h. subst (HasRoom limit s.pooled_connections_max_count) (sym e) h) w

after-IsBounded :
    (limit : ℕ) (s s' : State) (o : Outcome)
    → IsBounded limit s
    → IsBounded limit (after s' o)
    → IsBounded limit (after s o)
after-IsBounded limit s s' exits v w = v
after-IsBounded limit s s' crashes v w = v
after-IsBounded limit s s' (returns o t) v w = w

prepared-IsBounded :
    (limit : ℕ) (s : State) (o : Option (LinkedList ℕ))
    → IsBounded limit s
    → (prepare limit s o ≡ none)
      ⊎ ((s' : State) × (prepare limit s o ≡ some s') × (0 < limit) × IsBounded limit s')
unfolding build_list
prepared-IsBounded limit s none v = elim (Bool-cases (ltb 0 limit)) [
  | inl e ↦ inr (initialize s limit, rw e refl, ltb→lt 0 limit e, (refl, refl, omega arith))
  | inr e ↦ inl (rw e refl)
]
prepared-IsBounded limit s (some l) v = elim (Bool-cases (limit == 0)) [
  | inl e ↦ inl (rw e refl)
  | inr e ↦ inr (s, rw e refl, ground (arith, e), v)
]

step-IsBounded :
    (limit : ℕ) (s : State) (e : Event)
    → limit < 2 ^ 31
    → IsBounded limit s
    → IsBounded limit (step limit s e)
unfolding step get_conection_turn
step-IsBounded limit s (acquires socket) b v =
    elim (prepared-IsBounded limit s s.pooled_connections v) [
      | inl e ↦ rw (e, get_conection_turn) v
      | inr (s', e, p, w) ↦
          rw (e, get_conection_turn)
            (after-IsBounded limit s s' (get_pooled_connection socket s') v
              (get-IsBounded limit socket s' b p w))
    ]
step-IsBounded limit s (releases p) b v = v

-- From a pool that was not made yet, and after any sequence of calls and releases by any threads,
-- the pool has no more connections than were configured, and its size counts them. The number
-- configured is an `int` that is not negative.
pub run-IsBounded :
    (limit : ℕ) (s : State) (es : List Event)
    → limit < 2 ^ 31
    → s.pooled_connections ≡ none
    → IsBounded limit (run limit s es)
unfolding run
run-IsBounded limit s es b n =
    kept s es (subst (Fits limit s.pooled_connections_max_count) (sym n) tt)
  where
    kept : (s : State) (es : List Event) → IsBounded limit s → IsBounded limit (run limit s es)
    kept s [] v = v
    kept s (e ∷ es) v = kept (step limit s e) es (step-IsBounded limit s e b v)
