-- ===== src/Lease/Queue.antt =====
-- tools/fifo/internal/lease/lease.go: who is in front of the queue.
use contrast.Prelude.{
  Bytes, bytes_equal_iff, Bool-cases, ltb, Bool, true, false, ℕ, ◌+◌, ◌≤◌, List, [], ◌∷◌,
  if◌then◌else◌, All, ◌≡◌, ◌≢◌, ◌⊎◌, inl, inr, refl, arith, sym, ◌∙◌, subst,
}
use contrast.Lease.{
  Lease, expiry, hour, holder_of, at_most, insert_sorted, sort_by_holder, Front, look, look_all,
  claim, turn, position,
}

abbrev pub IsIn : Lease → List Lease → Type 0
IsIn l [] = ⊥
IsIn l (k ∷ ks) = (k ≡ l) ⊎ IsIn l ks

-- An entry that has not expired.
abbrev pub IsLive : ℕ → Lease → Type 0
IsLive now l = now ≤ expiry l

-- No live entry of the list was acquired before.
abbrev pub IsFirst : ℕ → Lease → List Lease → Type 0
IsFirst now mine = All (λ l. IsLive now l → mine.acquire_time ≤ l.acquire_time)

module _ (self : Bytes) (now : ℕ) where
  -- What a round leaves of the candidates: the earliest time does not grow, and is that of a live
  -- entry or the one before.
  record IsLooked (item : Lease) (f f' : Front) : Type 0 where
    earlier : f'.earliest ≤ f.earliest
    bound : IsLive now item → f'.earliest ≤ item.acquire_time
    source :
        ((f'.earliest ≡ f.earliest) × (f'.holder ≡ f.holder))
        ⊎ ((IsLive now item) × (f'.earliest ≡ item.acquire_time) × (f'.holder ≡ holder_of item))

  look_lem : (item : Lease) (f : Front) → IsLooked item f (look self now item f)
  unfolding look
  look_lem item f = elim (Bool-cases (ltb (expiry item) now)) [
    | inl expired ↦
        rw expired (record {
          earlier = omega arith;
          bound = λ live. ground arith;
          source = inl (refl, refl);
        })
    | inr live ↦ elim (Bool-cases (ltb f.earliest item.acquire_time)) [
      | inl later ↦
          rw (live, later)
            (record { earlier = omega arith; bound = λ _. ground arith; source = inl (refl, refl) })
      | inr sooner ↦
          rw (live, sooner)
            (record {
              earlier = ground arith;
              bound = λ _. omega arith;
              source = inr (ground arith, refl, refl);
            })
    ]
  ]

  -- The front is the one of before, or a live entry of the list.
  abbrev IsFrom : List Lease → Front → Front → Type 0
  IsFrom items f f' =
      ((f'.earliest ≡ f.earliest) × (f'.holder ≡ f.holder))
      ⊎ ((l : Lease) × IsIn l items
          × IsLive now l
          × (f'.earliest ≡ l.acquire_time)
          × (f'.holder ≡ holder_of l))

  record IsScanned (items : List Lease) (f f' : Front) : Type 0 where
    earlier : f'.earliest ≤ f.earliest
    bound : All (λ l. IsLive now l → f'.earliest ≤ l.acquire_time) items
    source : IsFrom items f f'

  IsFrom-first :
      (item : Lease) (items : List Lease) (f f1 f2 : Front)
      → IsLooked item f f1
      → IsFrom items f1 f2
      → IsFrom (item ∷ items) f f2
  IsFrom-first item items f f1 f2 one (inr (l, i, live, e, h)) = inr (l, inr i, live, e, h)
  IsFrom-first item items f f1 f2 one (inl (e, h)) = elim one.source [
    | inl (e', h') ↦ inl (e ∙ e', h ∙ h')
    | inr (live, e', h') ↦ inr (item, inl refl, live, e ∙ e', h ∙ h')
  ]

  look_all_lem : (items : List Lease) (f : Front) → IsScanned items f (look_all self now items f)
  unfolding look_all
  look_all_lem [] f = record { earlier = omega arith; bound = tt; source = inl (refl, refl) }
  look_all_lem (item ∷ items) f =
      let one = look_lem item f in
      let rest = look_all_lem items (look self now item f) in
      let first = one.bound in
      let down = rest.earlier in
      record {
        earlier = omega (arith, one.earlier);
        bound = (λ live. omega (arith, first live), rest.bound);
        source =
            IsFrom-first item items f (look self now item f)
              (look_all self now items (look self now item f)) one rest.source;
      }

  -- Sorting keeps the entries.
  IsIn-insert_sorted :
      (m l : Lease) (ks : List Lease) → IsIn m (insert_sorted l ks) → (l ≡ m) ⊎ IsIn m ks
  IsIn-insert_sorted m l [] i = i
  IsIn-insert_sorted m l (k ∷ ks) i =
      go (at_most (holder_of l) (holder_of k)) (IsIn-insert_sorted m l ks) i
    where
      swap : (l ≡ m) ⊎ IsIn m ks → (l ≡ m) ⊎ IsIn m (k ∷ ks)
      swap (inl e) = inl e
      swap (inr i') = inr (inr i')

      go :
          (b : Bool)
          → (IsIn m (insert_sorted l ks) → (l ≡ m) ⊎ IsIn m ks)
          → IsIn m (if b then l ∷ k ∷ ks else k ∷ insert_sorted l ks)
          → (l ≡ m) ⊎ IsIn m (k ∷ ks)
      go true ih i' = i'
      go false ih (inl e) = inr (inl e)
      go false ih (inr i') = swap (ih i')

  IsIn-sort_by_holder : (m : Lease) (ls : List Lease) → IsIn m (sort_by_holder ls) → IsIn m ls
  unfolding sort_by_holder
  IsIn-sort_by_holder m [] i = i
  IsIn-sort_by_holder m (l ∷ ls) i =
      go (IsIn-insert_sorted m l (sort_by_holder ls) i) (IsIn-sort_by_holder m ls)
    where
      go :
          (l ≡ m) ⊎ IsIn m (sort_by_holder ls)
          → (IsIn m (sort_by_holder ls) → IsIn m ls)
          → IsIn m (l ∷ ls)
      go (inl e) ih = inl e
      go (inr i') ih = inr (ih i')

  All-insert_sorted :
      (P : Lease → Type 0) (l : Lease) (ks : List Lease)
      → All P (insert_sorted l ks)
      → P l × All P ks
  All-insert_sorted P l [] a = a
  All-insert_sorted P l (k ∷ ks) a =
      go (at_most (holder_of l) (holder_of k)) (All-insert_sorted P l ks) a
    where
      go :
          (b : Bool)
          → (All P (insert_sorted l ks) → P l × All P ks)
          → All P (if b then l ∷ k ∷ ks else k ∷ insert_sorted l ks)
          → P l × All P (k ∷ ks)
      go true ih a' = a'
      go false ih (pk, a') = let (pl, r) = ih a' in (pl, (pk, r))

  All-sort_by_holder : (P : Lease → Type 0) (ls : List Lease) → All P (sort_by_holder ls) → All P ls
  unfolding sort_by_holder
  All-sort_by_holder P [] a = a
  All-sort_by_holder P (l ∷ ls) a =
      let (pl, r) = All-insert_sorted P l (sort_by_holder ls) a in (pl, All-sort_by_holder P ls r)

  turn_claim : (f : Front) → turn self f ≡ claim → f.holder ≡ self
  unfolding turn
  turn_claim f e = ground (arith, bytes_equal_iff f.holder self)

  -- The contender claims the lease only if it has a live entry in the queue before whose time no
  -- other live entry was made. Its identity is not empty.
  pub position-IsFirst :
      (items : List Lease)
      → self ≢ []
      → position self now items ≡ claim
      → (mine : Lease) × IsIn mine items
        × IsLive now mine
        × (holder_of mine ≡ self)
        × IsFirst now mine items
  unfolding position
  position-IsFirst items named e =
      let start : Front = record { earliest = now + hour; holder = []; found_self = false } in
      let scan = look_all_lem (sort_by_holder items) start in
      let is_self = turn_claim (look_all self now (sort_by_holder items) start) e in
      elim scan.source [
        | inl (_, none_found) ↦ absurd (named (sym is_self ∙ none_found))
        | inr (mine, i, live, time, holds) ↦ (
          mine,
          IsIn-sort_by_holder mine items i,
          live,
          sym holds ∙ is_self,
          All-sort_by_holder (λ l. IsLive now l → mine.acquire_time ≤ l.acquire_time) items
              (subst (λ t. All (λ l. IsLive now l → t ≤ l.acquire_time) (sort_by_holder items)) time
                scan.bound),
        )
      ]
