-- ===== src/Fsal/Handle/Ids.antt =====
-- The id in the first eight bytes of a handle, and what it says of the handles issued.
use arcticwolf.Base.{ℕ, ◌<◌, ◌^◌, ◌≡◌, take}
use arcticwolf.Base.Words.{of_be, of_be-be64}
use arcticwolf.Fsal.Handle.{FileHandle, new_handle}

unfoldable pub id_of : FileHandle → ℕ
unfolding of_be
id_of h = of_be 0 (take 8 h)

pub id_of-new_handle : (id hash : ℕ) → id < 2 ^ 64 → id_of (new_handle id hash) ≡ id
unfolding id_of new_handle
id_of-new_handle id hash h = of_be-be64 id h
