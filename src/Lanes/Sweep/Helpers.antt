-- ===== src/Lanes/Sweep/Helpers.antt =====
-- internal/lanes/daemon/sweep.go: `helpersOf` always ends, and collects exactly what the processes with
-- the given names launched.
use homebrew_tools.Prelude.{
  ℕ, zero, suc, ◌+◌, ◌≤◌, String, Bool, true, false, ◌||◌, Option, some, List, [], ◌∷◌, Memᴰ,
  length, ◌≡◌, refl, ◌⊎◌, inl, inr, arith, Bool-cases, subst, ◌↔◌,
}
use homebrew_tools.Lanes.Procs.{Proc, holds}
use homebrew_tools.Lanes.Sweep.{Frontier, launches, visit, search, pids_named, helpers_of}
use homebrew_tools.Lanes.Sweep.Search.{
  Helper, fresh, Visited, visit-Visited, holds-cases, cons-holds, head-holds,
}
use homebrew_tools.Lanes.Sweep.Search.Helper.{launched, relayed}

abbrev Spread : Bool → List Proc → ℕ → List ℕ → Type 0
Spread stop procs q out =
    (c : Proc) → Memᴰ c procs → launches stop q c ≡ true → holds c.pid out ≡ true

-- A search under way.
record Searching (stop : Bool) (procs : List Proc) (roots out queue : List ℕ) : Type 0 where
  sound_out : (n : ℕ) → holds n out ≡ true → Helper stop procs roots n
  sound_queue : (n : ℕ) → holds n queue ≡ true → (holds n roots || holds n out) ≡ true
  closed :
      (q : ℕ)
      → (holds q roots || holds q out) ≡ true
      → (holds q queue ≡ true) ⊎ Spread stop procs q out

Helper-launches :
    (stop : Bool) (procs : List Proc) (roots out : List ℕ) (q : ℕ) (c : Proc)
    → ((n : ℕ) → holds n out ≡ true → Helper stop procs roots n)
    → (holds q roots || holds q out) ≡ true
    → Memᴰ c procs
    → launches stop q c ≡ true
    → Helper stop procs roots c.pid
Helper-launches stop procs roots out q c s h m l = elim (Bool-cases (holds q roots)) [
  | inl r ↦ launched q c r m l refl
  | inr r ↦ relayed q c (s q (ground (arith, h, r))) m l refl
]

-- An ID that was known, and the outcomes of a round.
known_before :
    (roots out out2 queue2 : Bool)
    → (roots || out2) ≡ true
    → queue2 ≡ false
    → (out2 ≡ true → (out || queue2) ≡ true)
    → (roots || out) ≡ true
known_before roots out out2 queue2 h e k = ground (arith, h, e, k)

known_after :
    (roots out out2 queue : Bool)
    → (queue || out2) ≡ true
    → (queue ≡ true → (roots || out) ≡ true)
    → (out ≡ true → out2 ≡ true)
    → (roots || out2) ≡ true
known_after roots out out2 queue h k l = ground (arith, h, k, l)

visit-Searching :
    (stop : Bool) (procs : List Proc) (roots out : List ℕ) (pid : ℕ) (queue : List ℕ) (t : Frontier)
    → Searching stop procs roots out (pid ∷ queue)
    → Visited stop pid procs procs (record { out = out; queue = queue }) t
    → Searching stop procs roots t.out t.queue
visit-Searching stop procs roots out pid queue t i v = record {
  sound_out = λ n h. elim (v.new_launched n h) [
    | inl k ↦ i.sound_out n k
    | inr w ↦
        subst (λ (m : ℕ). Helper stop procs roots m) w.1.1.1
          (Helper-launches stop procs roots out pid w.0 i.sound_out
            (i.sound_queue pid (head-holds pid queue)) w.1.0 w.1.1.0)
  ];
  sound_queue = λ n h.
      known_after (holds n roots) (holds n out) (holds n t.out) (holds n queue) (v.queued n h)
        (λ k. i.sound_queue n (cons-holds n pid queue k)) (v.keeps_out n);
  closed = λ q h. elim (Bool-cases (holds q t.queue)) [
    | inl e ↦ inl e
    | inr e ↦
        elim (i.closed q (
          known_before (holds q roots) (holds q out) (holds q t.out) (holds q t.queue) h e
            (v.new_queued q))) [
              | inr s ↦ inr (λ c m l. v.keeps_out c.pid (s c m l))
              | inl k ↦ elim (holds-cases q pid queue k) [
                | inl p ↦ inr (subst (λ (z : ℕ). Spread stop procs z t.out) p v.covers)
                | inr m ↦ inl (v.keeps_queue q m)
              ]
            ]
  ];
}

or-left : (a b : Bool) → a ≡ true → (a || b) ≡ true
or-left a b h = ground (arith, h)

or-right : (a b : Bool) → b ≡ true → (a || b) ≡ true
or-right a b h = ground (arith, h)

-- With nothing queued, every known process has its children collected.
finished :
    (stop : Bool) (procs : List Proc) (roots out : List ℕ) (q : ℕ)
    → Searching stop procs roots out []
    → (holds q roots || holds q out) ≡ true
    → Spread stop procs q out
unfolding holds
finished stop procs roots out q i h = elim (i.closed q h) [
  | inl e ↦ absurd (ground (arith, e))
  | inr s ↦ s
]

-- At the end, what is collected is what was launched.
done-Helper :
    (stop : Bool) (procs : List Proc) (roots out : List ℕ)
    → Searching stop procs roots out []
    → (n : ℕ) → Helper stop procs roots n
    → holds n out ≡ true
done-Helper stop procs roots out i n (launched q c r m l e) =
    subst (λ (z : ℕ). holds z out ≡ true) e
      (finished stop procs roots out q i (or-left (holds q roots) (holds q out) r) c m l)
done-Helper stop procs roots out i n (relayed q c h m l e) =
    subst (λ (z : ℕ). holds z out ≡ true) e
      (finished stop procs roots out q i
        (or-right (holds q roots) (holds q out) (done-Helper stop procs roots out i q h)) c m l)

unfoldable pub Collects : Bool → List Proc → List ℕ → Option (List ℕ) → Type 0
Collects stop procs roots r =
    (out : List ℕ) × ((r ≡ some out) × ((n : ℕ) → (holds n out ≡ true) ↔ Helper stop procs roots n))

search-Collects :
    (fuel : ℕ) (stop : Bool) (procs : List Proc) (roots out queue : List ℕ)
    → Searching stop procs roots out queue
    → length queue + fresh out procs ≤ fuel
    → Collects stop procs roots (search fuel stop procs out queue)
unfolding search Collects
search-Collects fuel stop procs roots out [] i w =
    (out, (refl, λ n. (i.sound_out n, done-Helper stop procs roots out i n)))
search-Collects zero stop procs roots out (pid ∷ queue) i w = absurd (omega (arith, w))
search-Collects (suc fuel) stop procs roots out (pid ∷ queue) i w =
    let v = visit-Visited stop pid procs procs (record { out = out; queue = queue }) (λ c m. m) in
    search-Collects fuel stop procs roots
      (visit stop pid procs (record { out = out; queue = queue })).out
      (visit stop pid procs (record { out = out; queue = queue })).queue
      (visit-Searching stop procs roots out pid queue
        (visit stop pid procs (record { out = out; queue = queue })) i v)
      (omega (arith, v.work, w))

length-pids_named :
    (roots : List String) (procs : List Proc) → length (pids_named roots procs) ≤ length procs
unfolding pids_named
length-pids_named roots [] = omega arith
length-pids_named roots (p ∷ ps) = ground (arith, length-pids_named roots ps)

pub fresh_le : (out : List ℕ) (procs : List Proc) → fresh out procs ≤ length procs
fresh_le out [] = omega arith
fresh_le out (p ∷ ps) = ground (arith, fresh_le out ps)

-- `helpersOf` always ends, and what it gives is exactly what the processes of those names launched,
-- directly or through their own children, where no shell is passed if it is to stop at shells.
pub helpers_of-Helper :
    (procs : List Proc) (roots : List String) (stop : Bool)
    → Collects stop procs (pids_named roots procs) (helpers_of procs roots stop)
unfolding helpers_of holds
helpers_of-Helper procs roots stop =
    search-Collects (length procs + length procs) stop procs (pids_named roots procs) []
      (pids_named roots procs)
      (record {
        sound_out = λ n h. absurd (ground (arith, h));
        sound_queue = λ n h. ground (arith, h);
        closed = λ q h. inl (ground (arith, h));
      })
      (omega (arith, length-pids_named roots procs, fresh_le [] procs))
