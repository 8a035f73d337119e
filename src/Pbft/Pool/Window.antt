-- ===== src/Pbft/Pool/Window.antt =====
-- Which collectors the pool holds (platform/consensus/ordering/pbft/lock_free_collector_pool.cpp).
use native.Mathlib.Nat.{add-zero, div-add-mod, mod-add-mod, mod-eq_of_lt, mod-lt}
use mathlib.Core.Option.{some-injective}
use native.Mathlib.Decide.{dec_lt, ℕ_discrete}
use resilientdb.Pbft.Pool.{
  CollectorPool, collectors_from, pool_of, get_collector, update, index_of, set_collector,
  update_at, updates,
}
use resilientdb.Pbft.Collector.{Collector, new_collector}
use resilientdb.Common.{
  number_keys, length, get_elem?, ℕ, zero, suc, ◌+◌, ◌*◌, ◌%◌, ◌≤◌, ◌<◌, ◌≡◌, refl, ap, ◌≢◌, Bool,
  some, arith, get_elem?-set_self, get_elem?-set_ne, sym, ◌∙◌, length-set, set,
}

mod-ne : (a b m : ℕ) → a < b → b < a + m → a % m ≢ b % m
mod-ne a b m lo hi e = grind (arith, div-add-mod a m, div-add-mod b m)

pub get_elem?-collectors_from :
    (n i j : ℕ) (x v : Bool)
    → j < n
    → get_elem? (collectors_from n i x v) j ≡ some (new_collector (i + j) x v)
unfolding collectors_from
get_elem?-collectors_from zero i j x v h = absurd (omega arith)
get_elem?-collectors_from (suc n) i zero x v h = rw add-zero refl
get_elem?-collectors_from (suc n) i (suc j) x v h =
    rw (get_elem?-collectors_from n (i + 1) j x v (omega arith))
      (ap (λ k. some (new_collector k x v)) (omega arith))

length-collectors_from : (n i : ℕ) (x v : Bool) → length (collectors_from n i x v) ≡ n
unfolding collectors_from
length-collectors_from zero i x v = refl
length-collectors_from (suc n) i x v = ap suc (length-collectors_from n (i + 1) x v)

-- Each of the C numbers after `n` has its own collector.
pub record Window (p : CollectorPool) (n : ℕ) : Type 0 where
  pub positive : 0 < p.capacity
  pub full : length p.collectors ≡ 2 * p.capacity
  pub holds :
      (s : ℕ)
      → n < s
      → s ≤ n + p.capacity
      → (c : Collector) × (get_collector p s ≡ some c) × (c.seq ≡ s)

pool_of-Window : (capacity : ℕ) (x v : Bool) → 0 < capacity → Window (pool_of capacity x v) 0
unfolding pool_of get_collector index_of new_collector
pool_of-Window capacity x v h = record {
  positive = h;
  full = length-collectors_from (2 * capacity) 0 x v;
  holds = λ s lo hi. (
    new_collector s x v,
    ap (get_elem? (collectors_from (2 * capacity) 0 x v)) (mod-eq_of_lt (omega arith))
        ∙ get_elem?-collectors_from (2 * capacity) 0 s x v (omega arith)
        ∙ ap (λ k. some (new_collector k x v)) (omega arith),
    refl,
  );
}

-- Writing the collector of number t leaves that of another number of the window alone.
get_collector-set :
    (p : CollectorPool) (t : ℕ) (c : Collector)
    → 0 < p.capacity
    → length p.collectors ≡ 2 * p.capacity
    → get_collector (set_collector p t c) t ≡ some c
unfolding get_collector set_collector index_of
get_collector-set p t c pos full =
    get_elem?-set_self p.collectors (t % (2 * p.capacity)) c (rw full (mod-lt t (omega arith)))

get_collector-set_ne :
    (p : CollectorPool) (s t : ℕ) (c : Collector)
    → s ≢ t
    → s < t + 2 * p.capacity
    → t < s + 2 * p.capacity
    → get_collector (set_collector p t c) s ≡ get_collector p s
unfolding get_collector set_collector index_of
get_collector-set_ne p s t c ne hi lo = get_elem?-set_ne p.collectors c (elim (dec_lt t s) [
  | yes less ↦ mod-ne t s (2 * p.capacity) less hi
  | no not_less ↦ λ e. mod-ne s t (2 * p.capacity) (omega arith) lo (sym e)
])

-- The collector that an announced number's update makes.
next_collector : CollectorPool → ℕ → Collector
next_collector p s = new_collector (s + p.capacity) p.has_executor p.enable_viewchange

update_eq :
    (p : CollectorPool) (s : ℕ) (c : Collector)
    → get_collector p s ≡ some c
    → c.seq ≡ s
    → update p s ≡ set_collector p (s + p.capacity) (next_collector p s)
unfolding update update_at set_collector next_collector
update_eq p s c e q = ground (arith, mod-add-mod s (2 * p.capacity) p.capacity)

update-Window : (p : CollectorPool) (n : ℕ) → Window p n → Window (update p (suc n)) (suc n)
unfolding set_collector next_collector new_collector
update-Window p n w =
    let (c, e, q) = w.holds (suc n) (omega arith) (omega (arith, w.positive)) in
    rw (update_eq p (suc n) c e q) (record {
      positive = w.positive;
      full = length-set p.collectors _ _ ∙ w.full;
      holds = λ s lo hi. elim (ℕ_discrete s (suc n + p.capacity)) [
        | yes last ↦ (
          next_collector p (suc n),
          ap (get_collector _) last ∙ get_collector-set p (suc n + p.capacity) _ w.positive w.full,
          sym last,
        )
        | no inner ↦
            let (d, found, own) = w.holds s (omega arith) (omega arith) in
            (
              d,
              get_collector-set_ne p s (suc n + p.capacity) (next_collector p (suc n)) inner
                    (omega arith) (omega arith)
                  ∙ found,
              own,
            )
      ];
    })

-- From a fresh pool on, when the executor has announced the numbers up to n, each of the next C
-- numbers, C being the capacity, has a collector of its own that is for exactly that number.
pub updates-Window :
    (capacity n : ℕ) (x v : Bool) → 0 < capacity → Window (updates (pool_of capacity x v) n) n
unfolding updates
updates-Window capacity zero x v h = pool_of-Window capacity x v h
updates-Window capacity (suc n) x v h =
    update-Window (updates (pool_of capacity x v) n) n (updates-Window capacity n x v h)

-- A call on the collector of one number, which leaves it that number, keeps the window.
pub set_collector-Window :
    (p : CollectorPool) (n t : ℕ) (c d : Collector)
    → Window p n
    → get_collector p t ≡ some c
    → d.seq ≡ c.seq
    → Window (set_collector p t d) n
unfolding set_collector get_collector
set_collector-Window p n t c d w found same = record {
  positive = w.positive;
  full = length-set p.collectors _ _ ∙ w.full;
  holds = λ s lo hi. elim (ℕ_discrete (index_of p s) (index_of p t)) [
    | yes hit ↦
        let (x, e, own) = w.holds s lo hi in
        (
          d,
          ap (get_elem? (set p.collectors (index_of p t) d)) hit
              ∙ get_elem?-set_self p.collectors (index_of p t) d
                  (rw w.full (mod-lt t (omega (arith, w.positive)))),
          same
              ∙ ap (λ (y : Collector). y.seq)
                  (some-injective c x (sym found ∙ ap (get_elem? p.collectors) (sym hit) ∙ e))
              ∙ own,
        )
    | no miss ↦
        let (x, e, own) = w.holds s lo hi in
        (x, get_elem?-set_ne p.collectors d (λ q. miss (sym q)) ∙ e, own)
  ];
}
