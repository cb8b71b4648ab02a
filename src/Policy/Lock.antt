-- ===== src/Policy/Lock.antt =====
-- The edit lock of internal/policy/store.go: whom it keeps out, and for how long.
use apexaegis_management_pla.Prelude.{
  ℕ, ◌+◌, ◌*◌, ◌∙◌, List, [], ◌∷◌, All, ◌≡◌, ◌≢◌, ◌≤◌, ◌<◌, refl, sym, ap, subst, Bool, true, false,
  some, String, ltb, ◌<>◌, ◌==◌, string_eq, arith, if_cases, option_cases,
}
use text.Mathlib.TextEquality.{eq_iff}
use apexaegis_management_pla.Policy
use apexaegis_management_pla.Policy.History.{Operation, run, run_all}
use apexaegis_management_pla.Policy.{
  SecurityPolicy, ConfigLock, Store, Runtime, lock_config, unlock, check_lock, create, update,
  delete, Change, locked, held_by_other, lock_duration, relock,
}

abbrev pub half_hour : ℕ
half_hour = 30 * 60 * 1000000000

-- The store's lock is another author's and has not expired at `now`.
record IsLockedOut (now : ℕ) (author : String) (s : Store) : Type 0 where
  holder : ConfigLock
  held : s.lock ≡ some holder
  other : holder.locked_by ≢ author
  not_expired : now ≤ holder.expires_at

differs : (a b : String) → a ≢ b → (a == b) ≡ false
differs a b n = ground (arith, eq_iff a b)

check_lock-locked :
    (now : ℕ) (author : String) (s : Store) (h : IsLockedOut now author s)
    → check_lock now author s ≡ some ("config locked by " <> h.holder.locked_by)
unfolding check_lock
check_lock-locked now author s h =
    let d = differs h.holder.locked_by author h.other in
    let e = h.not_expired in
    let l : ltb h.holder.expires_at now ≡ false = ground arith in rw (h.held, l, d)

create-locked :
    (rt : Runtime) (now : ℕ) (author : String) (p : SecurityPolicy) (s : Store)
    → IsLockedOut now author s
    → (create rt now author p s).0 ≡ s
unfolding create
create-locked rt now author p s h = rw (create, check_lock-locked now author s h) refl

update-locked :
    (rt : Runtime) (now : ℕ) (author : String) (p : SecurityPolicy) (s : Store)
    → IsLockedOut now author s
    → (update rt now author p s).0 ≡ s
unfolding update
update-locked rt now author p s h = rw (update, check_lock-locked now author s h) refl

delete-locked :
    (rt : Runtime) (now : ℕ) (author id : String) (s : Store)
    → IsLockedOut now author s
    → (delete rt now author id s).0 ≡ s
unfolding delete
delete-locked rt now author id s h = rw (delete, check_lock-locked now author s h) refl

lock_config-relock :
    (now : ℕ) (author : String) (s : Store)
    → (lock_config now author s).1 ≡ true
    → (lock_config now author s).0 ≡ relock now author s
unfolding lock_config
lock_config-relock now author s =
    option_cases (λ (r : Store × Bool). r.1 ≡ true → r.0 ≡ relock now author s) s.lock _ _
      (λ _ h. refl)
      (λ l _.
        if_cases (λ (r : Store × Bool). r.1 ≡ true → r.0 ≡ relock now author s)
          (held_by_other now author l) _ _ (λ _ h. absurd (cc h)) (λ _ h. refl))

-- A call at a time before `until` that is not the holder's, but for a forced Unlock, and for Revert and
-- LoadDefaults, which do not look at the lock.
pub data IsByOther (holder : String) (until : ℕ) : Operation → Type 0 where
  locks :
      (now : ℕ) (author : String)
      → holder ≢ author
      → now < until
      → IsByOther holder until (Operation.lock now author)
  unlocks :
      (author : String) → holder ≢ author → IsByOther holder until (Operation.unlock author false)
  looks : (now : ℕ) → now < until → IsByOther holder until (Operation.get_lock now)
  creates :
      (now : ℕ) (author : String) (p : SecurityPolicy)
      → holder ≢ author
      → now < until
      → IsByOther holder until (Operation.create now author p)
  updates :
      (now : ℕ) (author : String) (p : SecurityPolicy)
      → holder ≢ author
      → now < until
      → IsByOther holder until (Operation.update now author p)
  deletes :
      (now : ℕ) (author id : String)
      → holder ≢ author
      → now < until
      → IsByOther holder until (Operation.delete now author id)

module _ (rt : Runtime) (taken : ℕ) (holder : String) (s : Store) where
  abbrev kept : Store
  kept = relock taken holder s

  kept-IsLockedOut :
      (now : ℕ) (author : String)
      → holder ≢ author
      → now < taken + half_hour
      → IsLockedOut now author kept
  kept-IsLockedOut now author n early = record {
    holder = record { locked_by = holder; locked_at = taken; expires_at = taken + lock_duration };
    held = refl;
    other = n;
    not_expired = omega arith;
  }

  lock_config-kept :
      (now : ℕ) (author : String)
      → holder ≢ author
      → now < taken + half_hour
      → lock_config now author kept ≡ (kept, false)
  unfolding lock_config
  lock_config-kept now author n early =
      let d = differs holder author n in
      let t : ltb now (taken + lock_duration) ≡ true = ground arith in rw (t, d)

  unlock-kept :
      (author : String) → holder ≢ author → Policy.unlock author false kept ≡ (kept, false)
  unfolding Policy.unlock
  unlock-kept author n = let d = differs holder author n in rw (d)

  get_lock-kept : (now : ℕ) → now < taken + half_hour → (Policy.get_lock now kept).0 ≡ kept
  unfolding Policy.get_lock
  get_lock-kept now early =
      let t : ltb (taken + lock_duration) now ≡ false = ground arith in rw (Policy.get_lock, t) refl

  run-kept : (op : Operation) → IsByOther holder (taken + half_hour) op → run rt op kept ≡ kept
  unfolding run
  run-kept _ (locks now author n early) =
      ap (λ (r : Store × Bool). r.0) (lock_config-kept now author n early)
  run-kept _ (unlocks author n) = ap (λ (r : Store × Bool). r.0) (unlock-kept author n)
  run-kept _ (looks now early) = get_lock-kept now early
  run-kept _ (creates now author p n early) =
      create-locked rt now author p kept (kept-IsLockedOut now author n early)
  run-kept _ (updates now author p n early) =
      update-locked rt now author p kept (kept-IsLockedOut now author n early)
  run-kept _ (deletes now author id n early) =
      delete-locked rt now author id kept (kept-IsLockedOut now author n early)

  run_all-kept :
      (ops : List Operation)
      → All (IsByOther holder (taken + half_hour)) ops
      → run_all rt ops kept ≡ kept
  unfolding run_all
  run_all-kept [] h = refl
  run_all-kept (op ∷ ops) (h, hs) = ap (run_all rt ops) (run-kept op h) ∙ run_all-kept ops hs

-- Once an author has taken the lock, no sequence of calls of Lock, Unlock without force, GetLock,
-- Create, Update and Delete by other authors in the next half hour changes the store.
pub run_all-lock_config :
    (rt : Runtime) (now : ℕ) (author : String) (s : Store) (ops : List Operation)
    → (lock_config now author s).1 ≡ true
    → All (IsByOther author (now + half_hour)) ops
    → run_all rt ops (lock_config now author s).0 ≡ (lock_config now author s).0
run_all-lock_config rt now author s ops taken h =
    subst (λ (x : Store). run_all rt ops x ≡ x) (sym (lock_config-relock now author s taken))
      (run_all-kept rt now author s ops h)
