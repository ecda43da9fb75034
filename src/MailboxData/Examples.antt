-- ===== src/MailboxData/Examples.antt =====
-- MailboxData.h: an instance of the theorem on `Initialize`.
use msglib_cpp.Common.{ℕ, ◌≡◌, ◌⊎◌, refl, true, false, none, some}
use msglib_cpp.Common.State.{done}
use msglib_cpp.Pool.Buffer.{Buffer, buffer_resource}
use msglib_cpp.MailboxData.{MailboxData, uninitialized, initialize_with, byte_size}
use msglib_cpp.MailboxData.Init.{initialized_on, initialize_with_lem}

abbrev before : MailboxData Buffer
before = uninitialized

initialize_with_lem_example :
    ((before.initialized ≡ true) × (initialize_with 64 10 512 4 before ≡ done (false, before)))
    ⊎ (((before.initialized ≡ false)
          × (buffer_resource.make (byte_size 64 10 512 4) ≡ none)
          × (initialize_with 64 10 512 4 before ≡ done (false, before)))
        ⊎ ((before.initialized ≡ false)
            × ((a : Buffer) × (buffer_resource.make (byte_size 64 10 512 4) ≡ some a)
                × (initialize_with 64 10 512 4 before
                    ≡ done (true, initialized_on before 64 10 512 4 a))
                × ((ss' sc' ls' lc' : ℕ)
                    → initialize_with ss' sc' ls' lc' (initialized_on before 64 10 512 4 a)
                      ≡ done (false, initialized_on before 64 10 512 4 a)))))
initialize_with_lem_example = initialize_with_lem before 64 10 512 4 refl
