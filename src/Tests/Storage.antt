-- ===== src/Tests/Storage.antt =====
-- A HandlerStorage at concrete values.
use kernel_udp_tcp.Prelude.{◌≡◌, refl, [], ◌∷◌, if◌then◌else◌}
use kernel_udp_tcp.HandlerStorage.{
  HandlerStorage, storage, heap, empty, allocate, deallocate, fresh, allocates, deallocates,
  storages, storages-Use,
}

-- Two handlers at a time: the second is on the heap. Then the first gives the storage back.
abbrev two : HandlerStorage
two = (allocate 100 7 (allocate 200 6 empty).1).1

second_on_heap : two.live ≡ heap 7 ∷ storage ∷ []
unfolding allocate
second_on_heap = refl

abbrev one : HandlerStorage
one = deallocate storage (heap 7 ∷ []) two

storages-Use_example : storages one.live ≡ (if one.in_use then 1 else 0)
unfolding allocate
storages-Use_example =
    storages-Use
      (deallocates storage (heap 7 ∷ []) [] refl (allocates 100 7 (allocates 200 6 fresh)))
