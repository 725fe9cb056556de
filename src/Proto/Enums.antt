-- ===== src/Proto/Enums.antt =====
-- The enums of tool/msg.proto. Proto3 enums are open: a field holds any int, so the values are
-- numbers and these are their names.
use ebc_node.Base.{ℕ, Bool, ◌==◌, ◌||◌}

-- `MsgType`.
abbrev pub type_empty : ℕ
type_empty = 0

abbrev pub type_get_node : ℕ
type_get_node = 1

abbrev pub type_get_data : ℕ
type_get_data = 2

abbrev type_ping : ℕ
type_ping = 3

abbrev type_heart : ℕ
type_heart = 4

abbrev pub type_rep : ℕ
type_rep = 5

abbrev pub type_punch : ℕ
type_punch = 6

-- `MsgSubType`.
abbrev pub sub_empty : ℕ
sub_empty = 0

abbrev sub_pong : ℕ
sub_pong = 1

abbrev pub sub_node : ℕ
sub_node = 2

abbrev pub sub_data : ℕ
sub_data = 3

-- `MsgType_IsValid` and `MsgSubType_IsValid`.
unfoldable msg_type_is_valid : ℕ → Bool
msg_type_is_valid value =
    (value == type_empty)
    || ((value == type_get_node)
        || ((value == type_get_data)
            || ((value == type_ping)
                || ((value == type_heart) || ((value == type_rep) || (value == type_punch))))))

unfoldable msg_sub_type_is_valid : ℕ → Bool
msg_sub_type_is_valid value =
    (value == sub_empty) || ((value == sub_pong) || ((value == sub_node) || (value == sub_data)))
