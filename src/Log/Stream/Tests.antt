-- ===== src/Log/Stream/Tests.antt =====
-- The log stream theorems at concrete values.
use lali_rpc_frame.Base.{find_byte, codes, ◌≡◌, refl, true, List, [], ◌∷◌, arith}
use lali_rpc_frame.Base.Int.{pos, negsuc}
use lali_rpc_frame.Base.Decimal.{to_decimal}
use lali_rpc_frame.Log.Stream.{
  FixedBuffer, avail, new_buffer, append, to_string, reset, convert, Item, integer, string, flag,
  show_all,
}
use lali_rpc_frame.Log.Stream.Convert.{convert-text}
use lali_rpc_frame.Log.Stream.Fit.{Extends, show_all-Extends}

convert-text_example : convert (negsuc 41) ≡ codes "-42"
unfolding to_decimal
convert-text_example = convert-text (negsuc 41)

-- The number needs 32 free bytes and the last text does not fit: only "ab1" is held.
abbrev items : List Item
items = string (codes "ab") ∷ integer (pos 7) ∷ flag true ∷ string (codes "xyz") ∷ []

abbrev short : FixedBuffer
short = record { storage = 0 ∷ 0 ∷ 0 ∷ 0 ∷ 0 ∷ []; cur = 0 }

show_all-Extends_example : Extends short (codes "ab1") (show_all items short)
unfolding avail
show_all-Extends_example =
    show_all-Extends items short (omega arith) (record { free = omega arith })

-- Behind a reset, `to_string` still reads what was there.
stale : to_string (append (codes "x") (reset (append (codes "abc") (new_buffer 8)))) ≡ codes "xbc"
unfolding to_string append reset new_buffer find_byte avail
stale = refl
