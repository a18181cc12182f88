-- ===== src/Extern/Tables.antt =====
-- Concrete slabs and channels, for the tests: the laws of Extern/Slabs and Channels can be met.
use rnet.Prelude.{
  ℕ, zero, suc, ◌≡◌, ◌≢◌, inl, inr, refl, ap, ◌∙◌, Bool, true, false, List, [], ◌∷◌, ◌++◌, Option,
  none, some, map, length, ◌==◌, if◌then◌else◌, arith,
}
use rnet.Extern.Slabs.{SlabApi, Member}
use rnet.Extern.Channels.{ChannelApi, Received, got, is_empty, is_disconnected}

Member-map-suc : (k : ℕ) (js : List ℕ) → Member k js → Member (suc k) (map suc js)
Member-map-suc k [] m = m
Member-map-suc k (j ∷ js) (inl e) = inl (ap suc e)
Member-map-suc k (j ∷ js) (inr m) = inr (Member-map-suc k js m)

module _ {A : Type 0} where
  -- The entry of a table at a key; and the table once the entry is replaced.
  abbrev pub at : List (Option A) → ℕ → Option A
  at [] k = none
  at (o ∷ os) zero = o
  at (o ∷ os) (suc k) = at os k

  abbrev pub replace : List (Option A) → ℕ → Option A → List (Option A)
  replace [] zero o = o ∷ []
  replace [] (suc k) o = none ∷ replace [] k o
  replace (p ∷ os) zero o = o ∷ os
  replace (p ∷ os) (suc k) o = p ∷ replace os k o

  abbrev pub first_free : List (Option A) → ℕ
  first_free [] = 0
  first_free (none ∷ os) = 0
  first_free (some a ∷ os) = suc (first_free os)

  abbrev pub filled : List (Option A) → ℕ
  filled [] = 0
  filled (none ∷ os) = filled os
  filled (some a ∷ os) = suc (filled os)

  abbrev pub filled_keys : List (Option A) → List ℕ
  filled_keys [] = []
  filled_keys (none ∷ os) = map suc (filled_keys os)
  filled_keys (some a ∷ os) = 0 ∷ map suc (filled_keys os)

  pub at-replace :
      (os : List (Option A)) (j k : ℕ) (o : Option A)
      → at (replace os j o) k ≡ (if k == j then o else at os k)
  at-replace [] zero zero o = ground arith
  at-replace [] zero (suc k) o = ground arith
  at-replace [] (suc j) zero o = ground arith
  at-replace [] (suc j) (suc k) o = at-replace [] j k o ∙ shift
    where
      shift : (if k == j then o else none) ≡ (if suc k == suc j then o else none)
      shift = ground arith
  at-replace (p ∷ os) zero zero o = ground arith
  at-replace (p ∷ os) zero (suc k) o = ground arith
  at-replace (p ∷ os) (suc j) zero o = ground arith
  at-replace (p ∷ os) (suc j) (suc k) o = at-replace os j k o ∙ shift
    where
      shift : (if k == j then o else at os k) ≡ (if suc k == suc j then o else at os k)
      shift = ground arith

  pub at-first_free : (os : List (Option A)) → at os (first_free os) ≡ none
  at-first_free [] = refl
  at-first_free (none ∷ os) = refl
  at-first_free (some a ∷ os) = at-first_free os

  pub filled-insert :
      (os : List (Option A)) (a : A)
      → filled (replace os (first_free os) (some a)) ≡ suc (filled os)
  filled-insert [] a = refl
  filled-insert (none ∷ os) a = refl
  filled-insert (some b ∷ os) a = ap suc (filled-insert os a)

  pub filled-remove :
      (os : List (Option A)) (j : ℕ) → at os j ≢ none → suc (filled (replace os j none)) ≡ filled os
  filled-remove [] j full = absurd (full refl)
  filled-remove (none ∷ os) zero full = absurd (full refl)
  filled-remove (some a ∷ os) zero full = refl
  filled-remove (none ∷ os) (suc j) full = filled-remove os j full
  filled-remove (some a ∷ os) (suc j) full = ap suc (filled-remove os j full)

  pub filled-put :
      (os : List (Option A)) (j : ℕ) (a : A)
      → at os j ≢ none
      → filled (replace os j (some a)) ≡ filled os
  filled-put [] j a full = absurd (full refl)
  filled-put (none ∷ os) zero a full = absurd (full refl)
  filled-put (some b ∷ os) zero a full = refl
  filled-put (none ∷ os) (suc j) a full = filled-put os j a full
  filled-put (some b ∷ os) (suc j) a full = ap suc (filled-put os j a full)

  pub filled-keys : (os : List (Option A)) (k : ℕ) → at os k ≢ none → Member k (filled_keys os)
  filled-keys [] k full = absurd (full refl)
  filled-keys (none ∷ os) zero full = absurd (full refl)
  filled-keys (some a ∷ os) zero full = inl refl
  filled-keys (none ∷ os) (suc k) full = Member-map-suc k (filled_keys os) (filled-keys os k full)
  filled-keys (some a ∷ os) (suc k) full =
      inr (Member-map-suc k (filled_keys os) (filled-keys os k full))

  instance abbrev pub list_slab : SlabApi A
  list_slab = record {
    Slab = List (Option A);
    empty = [];
    get = at;
    vacant_key = first_free;
    insert = λ os a. replace os (first_free os) (some a);
    remove = λ os k. replace os k none;
    put = λ os k a. replace os k (some a);
    len = filled;
    keys = filled_keys;
    get-empty = λ k. refl;
    get-vacant_key = at-first_free;
    get-insert = λ os a k. at-replace os (first_free os) k (some a);
    get-remove = λ os j k full. at-replace os j k none;
    get-put = λ os j k a full. at-replace os j k (some a);
    len-empty = refl;
    len-insert = filled-insert;
    len-remove = filled-remove;
    len-put = filled-put;
    get-keys = filled-keys;
  }

-- A queue whose other end may be gone.
pub record ListChannel (A : Type 0) : Type 0 where
  pub items : List A
  pub connected : Bool

module _ {A : Type 0} where
  abbrev receive : List A → ListChannel A → ListChannel A × Received A
  receive (a ∷ rest) c = (record c { items = rest }, got a)
  receive [] c = if c.connected then (c, is_empty) else (c, is_disconnected)

  abbrev pub list_send : ListChannel A → A → ListChannel A × Bool
  list_send c a =
      if c.connected then (record c { items = c.items ++ (a ∷ []) }, true) else (c, false)

  pub list_send-ok :
      (c : ListChannel A) (a : A)
      → (list_send c a).1 ≡ true
      → (list_send c a).0.items ≡ c.items ++ (a ∷ [])
  list_send-ok c a h = ground arith

  pub list_send-err :
      (c : ListChannel A) (a : A) → (list_send c a).1 ≡ false → (list_send c a).0.items ≡ c.items
  list_send-err c a h = ground arith

  pub receive-got :
      (c : ListChannel A) (a : A)
      → (receive c.items c).1 ≡ got a
      → c.items ≡ a ∷ (receive c.items c).0.items
  receive-got c a h = ground arith

  pub receive-is_empty :
      (c : ListChannel A)
      → (receive c.items c).1 ≡ is_empty
      → (c.items ≡ []) × ((receive c.items c).0.items ≡ [])
  receive-is_empty c h = ground arith

  pub receive-is_disconnected :
      (c : ListChannel A)
      → (receive c.items c).1 ≡ is_disconnected
      → (c.items ≡ []) × ((receive c.items c).0.items ≡ [])
  receive-is_disconnected c h = ground arith

  instance abbrev pub list_channel : ChannelApi A
  list_channel = record {
    Channel = ListChannel A;
    queue = λ c. c.items;
    len = λ c. length c.items;
    send = list_send;
    try_recv = λ c. receive c.items c;
    len-queue = λ c. refl;
    send-ok = list_send-ok;
    send-err = list_send-err;
    try_recv-got = receive-got;
    try_recv-is_empty = receive-is_empty;
    try_recv-is_disconnected = receive-is_disconnected;
  }
