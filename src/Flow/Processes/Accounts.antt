-- ===== src/Flow/Processes/Accounts.antt =====
-- How often a process id runs, has ended and is owned, under the changes that the steps make.
use terracotta_ffi.Base.{
  ℕ, ◌+◌, ◌≤◌, ◌≡◌, List, [], ◌∷◌, ◌++◌, Option, none, some, ◌==◌, if◌then◌else◌, arith,
}
use terracotta_ffi.Session.{EasyTier}
use terracotta_ffi.Flow.Processes.{Machine, without, drop_easytier}

-- 1 for the same process id.
abbrev pub once : ℕ → ℕ → ℕ
once p q = if q == p then 1 else 0

abbrev pub times : ℕ → List ℕ → ℕ
times p [] = 0
times p (q ∷ qs) = once p q + times p qs

-- How often EasyTiers own a process.
abbrev pub owns : ℕ → List EasyTier → ℕ
owns p [] = 0
owns p (t ∷ ts) = once p t.process + owns p ts

abbrev pub holds : ℕ → Option EasyTier → ℕ
holds p none = 0
holds p (some t) = once p t.process

pub owns-append : (p : ℕ) (xs ys : List EasyTier) → owns p (xs ++ ys) ≡ owns p xs + owns p ys
owns-append p [] ys = omega arith
owns-append p (x ∷ xs) ys = omega (arith, owns-append p xs ys)

pub times-without :
    (p q : ℕ) (qs : List ℕ) → times p (without q qs) ≡ (if q == p then 0 else times p qs)
unfolding without
times-without p q [] = ground arith
times-without p q (x ∷ xs) = ground (arith, times-without p q xs)

-- The books are in order when `owned` says how often each process id is owned: no id that is still to
-- come is owned, none is owned twice, what runs is owned, and what is owned runs or has ended of itself.
pub record IsAccounted (owned : ℕ → ℕ) (m : Machine) : Type 0 where
  pub fresh : (p : ℕ) → m.next_pid ≤ p → owned p ≡ 0
  pub single : (p : ℕ) → owned p ≤ 1
  pub run_owned : (p : ℕ) → times p m.running ≤ owned p
  pub owned_run : (p : ℕ) → owned p ≤ times p m.running + times p m.exited

module _ {owned owned' : ℕ → ℕ} (m : Machine) (a : IsAccounted owned m) where
  -- The order of the owners does not matter.
  pub IsAccounted-same : ((p : ℕ) → owned' p ≡ owned p) → IsAccounted owned' m
  IsAccounted-same e = record {
    fresh = λ p h. omega (arith, e p, a.fresh p h);
    single = λ p. omega (arith, e p, a.single p);
    run_owned = λ p. omega (arith, e p, a.run_owned p);
    owned_run = λ p. omega (arith, e p, a.owned_run p);
  }

  -- An owner is dropped.
  pub drop_easytier-IsAccounted :
      (t : EasyTier)
      → ((p : ℕ) → owned p ≡ once p t.process + owned' p)
      → IsAccounted owned' (drop_easytier t m)
  unfolding drop_easytier
  drop_easytier-IsAccounted t e = record {
    fresh = λ p h. omega (arith, e p, a.fresh p h);
    single = λ p. omega (arith, e p, a.single p);
    run_owned =
        λ p. ground (arith, e p, a.single p, a.run_owned p, times-without p t.process m.running);
    owned_run =
        λ p. ground (arith, e p, a.single p, a.owned_run p, times-without p t.process m.running);
  }

-- A process has ended of itself.
pub exit-IsAccounted :
    {owned : ℕ → ℕ} (m : Machine) (p : ℕ)
    → IsAccounted owned m
    → IsAccounted owned (record m { running = without p m.running; exited = p ∷ m.exited })
exit-IsAccounted m q a = record {
  fresh = a.fresh;
  single = a.single;
  run_owned = λ p. ground (arith, a.run_owned p, times-without p q m.running);
  owned_run = λ p. ground (arith, a.single p, a.owned_run p, times-without p q m.running);
}
