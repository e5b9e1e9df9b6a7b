-- ===== src/HandlerStorage.antt =====
-- HandlerStorage (include/server/asio/memory.h): the block inside an object in which asio keeps the
-- handler of its operation, and the heap beside it.
use kernel_udp_tcp.Prelude.{
  ℕ, suc, ◌+◌, ◌*◌, ◌%◌, ◌^◌, ◌≡◌, refl, Bool, true, false, not, ◌&&◌, List, [], ◌∷◌, ◌++◌, ltb,
  arith, if◌then◌else◌, Bool-cases, inl, inr,
}

-- What allocate returns: the storage itself, or what operator new returned.
pub data Pointer : Type 0 where
  storage : Pointer
  heap : ℕ → Pointer

-- `live` is what has been handed out and not yet been given back.
pub record HandlerStorage : Type 0 where
  pub in_use : Bool
  pub live : List Pointer

abbrev pub empty : HandlerStorage
empty = record { in_use = false; live = [] }

-- allocate, with what operator new would return
unfoldable pub allocate : ℕ → ℕ → HandlerStorage → Pointer × HandlerStorage
allocate size new s =
    if not s.in_use && ltb size 1024
    then (storage, record s { in_use = true; live = storage ∷ s.live })
    else (heap new, record s { live = heap new ∷ s.live })

-- deallocate, of what is left alive by it
unfoldable pub deallocate : Pointer → List Pointer → HandlerStorage → HandlerStorage
deallocate storage rest s = record s { in_use = false; live = rest }
deallocate (heap p) rest s = record s { live = rest }

-- HandlerAllocator::allocate of `num` objects of a type; the product is a size_t.
unfoldable allocate_objects : (num size_of new : ℕ) → HandlerStorage → Pointer × HandlerStorage
unfolding allocate
allocate_objects num size_of new s = allocate (num * size_of % 2 ^ 64) new s

-- asio allocates as often as it likes, and gives back what it was handed out, once.
pub data Use : HandlerStorage → Type 0 where
  fresh : Use empty
  allocates : {s : HandlerStorage} (size new : ℕ) → Use s → Use (allocate size new s).1
  deallocates :
      {s : HandlerStorage} (p : Pointer) (before after : List Pointer)
      → s.live ≡ before ++ (p ∷ after)
      → Use s
      → Use (deallocate p (before ++ after) s)

-- How often the storage is handed out.
pub storages : List Pointer → ℕ
storages [] = 0
storages (storage ∷ rest) = suc (storages rest)
storages (heap p ∷ rest) = storages rest

storages-append : (l r : List Pointer) → storages (l ++ r) ≡ storages l + storages r
unfolding storages
storages-append [] r = omega arith
storages-append (storage ∷ l) r = ground (arith, storages-append l r)
storages-append (heap p ∷ l) r = storages-append l r

-- The storage of an object is never handed out to two handlers at a time, and is known to be free
-- when it is: in every state that allocations, and deallocations of what was handed out, lead to,
-- it is handed out once if _in_use is set, and not at all otherwise.
pub storages-Use : {s : HandlerStorage} → Use s → storages s.live ≡ (if s.in_use then 1 else 0)
unfolding storages allocate deallocate
storages-Use fresh = refl
storages-Use (allocates {s = s} size new u) =
    let ih = storages-Use u in
    elim (Bool-cases (not s.in_use && ltb size 1024)) [
      | inl inside ↦ rw inside (ground arith)
      | inr outside ↦ rw outside ih
    ]
storages-Use (deallocates {s = s} storage before after e u) =
    let ih = storages-Use u in
    elim (Bool-cases s.in_use) [
      | inl used ↦
          ground (arith, storages-append before after, storages-append before (storage ∷ after))
      | inr free ↦
          ground (arith, storages-append before after, storages-append before (storage ∷ after))
    ]
storages-Use (deallocates {s = s} (heap p) before after e u) =
    let ih = storages-Use u in
    ground (arith, storages-append before after, storages-append before (heap p ∷ after))
