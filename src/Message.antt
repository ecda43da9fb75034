-- ===== src/Message.antt =====
-- include/msglib/Message.h: what a queue of a mailbox holds, a label with or without data.
use msglib_cpp.Common.{ℕ, ◌%◌, ◌^◌, Option, none, some, ◌==◌, if◌then◌else◌}

-- `Message`: `bytes` is m_data (`none` for nullptr), and `size` is m_size, a uint16_t.
pub record Message : Type 0 where
  pub bytes : Option ℕ
  pub label : ℕ
  pub size : ℕ

-- `Message(Label)`
unfoldable pub signal : ℕ → Message
signal label = record { bytes = none; label = label; size = 0 }

-- `Message(Label, uint16_t, std::byte *)`, called with a size_t, which is cut to 16 bits.
unfoldable pub message : ℕ → ℕ → Option ℕ → Message
message label size bytes = record { bytes = bytes; label = label; size = size % 2 ^ 16 }

-- `Message::as<T>` for a trivially copyable T with sizeof(T) = `n`.
unfoldable pub as_type : Message → ℕ → Option ℕ
as_type m n = elim m.bytes [ none ↦ none | some p ↦ if n == m.size then some p else none ]
