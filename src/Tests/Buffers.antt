-- ===== src/Tests/Buffers.antt =====
-- A send buffer (jhshin_Server/jhshin_Server/Buffer.cpp) and a pool of three objects
-- (jhshin_Server/jhshin_Server/ObjectPool.h).
use jhshin_server.Common.{ℕ, refl, [], ◌∷◌}
use jhshin_server.SendBuffer.{SendBuffer, reset, copy_buffer}
use jhshin_server.SendBuffer.Laws.{Copied, copy_buffer-Copied, reset-IsValid}
use jhshin_server.ObjectPool.{ObjectPool, empty, init_object_pool, pop}
use jhshin_server.ObjectPool.Invariant.{IsValid, init-IsValid}
use jhshin_server.ObjectPool.Calls.{Popped, pop-Popped}

abbrev blank : SendBuffer
blank = reset (record { chunk = []; pointer = 0 })

copy_buffer-Copied_example : Copied 5 (7 ∷ 8 ∷ []) blank (copy_buffer 5 (7 ∷ 8 ∷ []) blank)
copy_buffer-Copied_example =
    copy_buffer-Copied 5 (7 ∷ 8 ∷ []) blank (reset-IsValid (record { chunk = []; pointer = 0 }))

-- Objects at the addresses 10, 11 and 12.
abbrev three : ObjectPool ℕ
three = init_object_pool 10 0 3 empty

three-IsValid : IsValid three
three-IsValid = init-IsValid 10 3 0 empty refl

pop-Popped_example : Popped three (pop three)
pop-Popped_example = pop-Popped three three-IsValid
