-- ===== src/FailedLogins/Racing.antt =====
-- Failed logins of one key that run at once: each counts under the read lock, or finds no entry and
-- inserts one under the write lock, which it takes afterwards (src/server/failed_logins.rs).
use libunftp.Prelude.{
  ℕ, zero, suc, ◌+◌, ◌≤◌, ◌<◌, Bytes, ◌≡◌, refl, ap, ◌∙◌, false, Option, none, some, [], arith,
}
use libunftp.FailedLogins.{
  FailedLoginsPolicy, FailedLoginsKey, FailedLoginsEntry, already_locked, Cache, get, remove,
  insert, getkey, counted, is_locked, read_section, write_section, success,
}
use libunftp.FailedLogins.View.{get-insert, get-remove, key_eq_refl}

-- The cache, how many failures stand between their sections, and how many have begun.
pub record Race : Type 0 where
  pub map : Cache
  pub pending : ℕ
  pub begun : ℕ

abbrev pub attempts_of : Option FailedLoginsEntry → ℕ
attempts_of none = 0
attempts_of (some e) = e.attempts

abbrev waiting : Option ℕ → ℕ → ℕ
waiting none pending = suc pending
waiting (some attempts) pending = pending

module _ (policy : FailedLoginsPolicy) (key : FailedLoginsKey) where
  -- The read section of one more failure.
  unfoldable pub begin : ℕ → Race → Race
  unfolding read_section
  begin now w =
      let read = read_section policy now key w.map (get key w.map) in
      record { map = read.0; pending = waiting read.1 w.pending; begun = suc w.begun }

  -- The write section of one that found no entry.
  unfoldable pub finish : ℕ → ℕ → Race → Race
  unfolding write_section
  finish now pending w = record w { map = write_section policy now key w.map; pending = pending }

  pub data Step : Race → Race → Type 0 where
    begins : (now : ℕ) (w : Race) → Step w (begin now w)
    finishes : (now n : ℕ) (w : Race) → w.pending ≡ suc n → Step w (finish now n w)
    -- A login with the right password, or the sweeper, removes the entry.
    forgets : (w : Race) → Step w (record w { map = remove key w.map })
    -- What is done to other keys.
    elsewhere :
        (map : Cache) (w : Race) → get key map ≡ get key w.map → Step w (record w { map = map })

  pub data Reach (w : Race) : Race → Type 0 where
    here : Reach w w
    later : {u v : Race} → Reach w u → Step u v → Reach w v

  abbrev pub start : Race
  start = record { map = []; pending = 0; begun = 0 }

  -- What is counted, or still to be inserted, has begun.
  abbrev IsBounded : Race → Type 0
  IsBounded w = attempts_of (get key w.map) + w.pending ≤ w.begun

  counted-le : (now : ℕ) (e : FailedLoginsEntry) → (counted policy now e).attempts ≤ e.attempts + 1
  unfolding counted
  counted-le now e = ground arith

  own : (e : FailedLoginsEntry) (map : Cache) → get key (insert key e map) ≡ some e
  own e map = get-insert key key e map ∙ rw (key_eq_refl key)

  read-bounded :
      (now : ℕ) (map : Cache) (pending begun : ℕ) (o : Option FailedLoginsEntry)
      → get key map ≡ o
      → attempts_of o + pending ≤ begun
      → (let read = read_section policy now key map o in
          attempts_of (get key read.0) + waiting read.1 pending ≤ suc begun)
  unfolding read_section
  read-bounded now map pending begun none e i = omega (arith, ap attempts_of e)
  read-bounded now map pending begun (some entry) e i =
      omega (arith, ap attempts_of (own (counted policy now entry) map), counted-le now entry)

  gone : (map : Cache) → get key (remove key map) ≡ none
  gone map = get-remove key key map ∙ rw (key_eq_refl key)

  begin-IsBounded : (now : ℕ) (w : Race) → IsBounded w → IsBounded (begin now w)
  unfolding begin
  begin-IsBounded now w i = read-bounded now w.map w.pending w.begun (get key w.map) refl i

  Step-IsBounded : {u v : Race} → Step u v → IsBounded u → IsBounded v
  unfolding finish
  Step-IsBounded (begins now w) i = begin-IsBounded now w i
  Step-IsBounded (finishes now n w e) i =
      omega (arith, e, ap attempts_of (own (record { attempts = 1; last_attempt_at = now }) w.map))
  Step-IsBounded (forgets w) i = omega (arith, ap attempts_of (gone w.map))
  Step-IsBounded (elsewhere map w e) i = omega (arith, ap attempts_of e)

  Reach-IsBounded : {w : Race} → Reach start w → IsBounded w
  unfolding get
  Reach-IsBounded here = omega arith
  Reach-IsBounded (later r s) = Step-IsBounded s (Reach-IsBounded r)

module _ (policy : FailedLoginsPolicy) (addr : ℕ) (name : Bytes) where
  abbrev key : FailedLoginsKey
  key = getkey policy addr name

  locked-attempts :
      (now : ℕ) (map : Cache)
      → (success policy now addr name map).1 ≡ some already_locked
      → policy.max_attempts ≤ attempts_of (get key map)
  unfolding success is_locked
  locked-attempts now map e = ground arith

  -- However the sections of failed logins of one key come between one another, between logins with the
  -- right password, rounds of the sweeper and what is done to other keys: a login with the right
  -- password is refused as locked only after as many failures as the policy allows have begun.
  pub locked-begun :
      (now : ℕ) (w : Race)
      → Reach policy key (start policy key) w
      → (success policy now addr name w.map).1 ≡ some already_locked
      → policy.max_attempts ≤ w.begun
  locked-begun now w r e = omega (arith, locked-attempts now w.map e, Reach-IsBounded policy key r)

  -- More failures, each of which finds the entry.
  abbrev more : ℕ → (now : ℕ) → Race → Race
  more zero now w = w
  more (suc n) now w = begin policy key now (more n now w)

  more-Reach : (n now : ℕ) (u w : Race) → Reach policy key u w → Reach policy key u (more n now w)
  more-Reach zero now u w r = r
  more-Reach (suc n) now u w r = later (more-Reach n now u w r) (begins now (more n now w))

  begin-found :
      (now : ℕ) (w : Race) (e : FailedLoginsEntry)
      → get key w.map ≡ some e
      → (get key (begin policy key now w).map ≡ some (counted policy now e))
        × ((begin policy key now w).pending ≡ w.pending)
  unfolding begin read_section
  begin-found now w e h = (
    ap (λ o. get key (read_section policy now key w.map o).0) h
        ∙ own policy key (counted policy now e) w.map,
    ap (λ o. waiting (read_section policy now key w.map o).1 w.pending) h,
  )

  more-found :
      (n now : ℕ) (w : Race) (e : FailedLoginsEntry)
      → get key w.map ≡ some e
      → (entry : FailedLoginsEntry) × ((get key (more n now w).map ≡ some entry)
          × ((more n now w).pending ≡ w.pending))
  more-found zero now w e h = (e, (h, refl))
  more-found (suc n) now w e h =
      let (entry, (found, same)) = more-found n now w e h in
      let k = begin-found now (more n now w) entry found in
      (counted policy now entry, (k.0, k.1 ∙ same))

  more-begun : (n now : ℕ) (w : Race) → (more n now w).begun ≡ n + w.begun
  unfolding begin
  more-begun zero now w = omega arith
  more-begun (suc n) now w = omega (arith, more-begun n now w)

  success-one :
      (now : ℕ) (map : Cache) (e : FailedLoginsEntry)
      → get key map ≡ some e
      → is_locked policy e.attempts ≡ false
      → (success policy now addr name map).1 ≡ none
  unfolding success
  success-one now map e h k = ground arith

  -- Two failures that both find no entry, the first of which inserts its own, then `n` more, and then
  -- the insertion of the second.
  abbrev two : ℕ → Race
  two now = begin policy key now (begin policy key now (start policy key))

  abbrev one_inserted : ℕ → Race
  one_inserted now = finish policy key now 1 (two now)

  abbrev pub forgotten : ℕ → ℕ → Race
  forgotten n now = finish policy key now 0 (more n now (one_inserted now))

  abbrev fresh_entry : ℕ → FailedLoginsEntry
  fresh_entry now = record { attempts = 1; last_attempt_at = now }

  one_inserted-found : (now : ℕ) → get key (one_inserted now).map ≡ some (fresh_entry now)
  unfolding finish write_section
  one_inserted-found now = own policy key (fresh_entry now) (two now).map

  two-pending : (now : ℕ) → ((two now).pending ≡ 2) × ((two now).begun ≡ 2)
  unfolding begin read_section get
  two-pending now = (refl, refl)

  one_inserted-pending :
      (now : ℕ) → ((one_inserted now).pending ≡ 1) × ((one_inserted now).begun ≡ 2)
  unfolding finish
  one_inserted-pending now = (refl, (two-pending now).1)

  one_inserted-Reach : (now : ℕ) → Reach policy key (start policy key) (one_inserted now)
  one_inserted-Reach now =
      let begun = more-Reach 2 now (start policy key) (start policy key) here in
      later begun (finishes now 1 (two now) (two-pending now).0)

  forgotten-pending : (n now : ℕ) → ((more n now (one_inserted now)).pending ≡ 1)
  forgotten-pending n now =
      let (entry, (found, same)) =
        more-found n now (one_inserted now) (fresh_entry now) (one_inserted-found now) in
      same ∙ (one_inserted-pending now).0

  forgotten-begun : (n now : ℕ) → (forgotten n now).begun ≡ n + 2
  unfolding finish
  forgotten-begun n now =
      more-begun n now (one_inserted now) ∙ ap (λ b. n + b) (one_inserted-pending now).1

  forgotten-found : (n now : ℕ) → get key (forgotten n now).map ≡ some (fresh_entry now)
  unfolding finish write_section
  forgotten-found n now = own policy key (fresh_entry now) (more n now (one_inserted now)).map

  -- Under a policy that locks at two failures or more, at every time and for every number of failures
  -- above one, a cache can be reached from the empty one by that many failures that lets a login with
  -- the right password through: two that run at once both find no entry, the others come between the
  -- insertion by the first and that by the second, and the latter sets the count back to one.
  pub forgotten-free :
      (n now : ℕ)
      → 1 < policy.max_attempts
      → Reach policy key (start policy key) (forgotten n now)
        × (((forgotten n now).begun ≡ n + 2)
            × ((success policy now addr name (forgotten n now).map).1 ≡ none))
  unfolding is_locked
  forgotten-free n now h = (
    later (more-Reach n now (start policy key) (one_inserted now) (one_inserted-Reach now))
        (finishes now 0 (more n now (one_inserted now)) (forgotten-pending n now)),
    (
      forgotten-begun n now,
      success-one now (forgotten n now).map (fresh_entry now) (forgotten-found n now)
          (ground arith),
    ),
  )
