-- ===== src/Tests/LogLines.antt =====
-- Log lines of base/LogStream.h in small buffers.
use dserver.Prelude.{◌≡◌, refl, some, none, List, [], ◌∷◌, codes, arith}
use dserver.LogStream.{
  pos, negsuc, FixedBuffer, empty_buffer, append, add_text, convert, convert_digits, convert_hex,
  convert_hex_digits, format_integer, format_pointer, Item, integer_item, pointer_item, string_item,
  put, int_of,
}
use dserver.LogStream.Convert.{number_of, number_of-convert}
use dserver.LogStream.Lines.{put_all, put_all_lem, Line}

convert_example :
    (convert (negsuc 119) ≡ codes "-120")
    × (convert (pos 0) ≡ codes "0")
    × (convert_hex 48879 ≡ codes "BEEF")
unfolding convert convert_digits convert_hex convert_hex_digits
convert_example = (refl, refl, refl)

abbrev items : List Item
items =
    string_item (some (codes "n="))
    ∷ integer_item (negsuc 6)
    ∷ string_item none
    ∷ pointer_item 255
    ∷ []

-- The 40 bytes leave too little room for the address.
put_all_example :
    put_all (empty_buffer 40) items ≡ some (record { size = 40; data_ = codes "n=-7(null)" })
unfolding put_all put append format_integer format_pointer add_text convert convert_digits
put_all_example = refl

-- The size of a string of 4,294,967,301 bytes is 5 as an `int`, and one of 2,147,483,648 is negative.
append_narrows :
    (append (empty_buffer 40) (codes "0123456789") (int_of 4294967301)
      ≡ record { size = 40; data_ = codes "01234" })
    × (append (empty_buffer 40) (codes "0123456789") (int_of 2147483648) ≡ empty_buffer 40)
unfolding append
append_narrows = (refl, refl)

number_of-convert_example : number_of (convert (negsuc 119)) ≡ negsuc 119
number_of-convert_example = number_of-convert (negsuc 119)

put_all_lem_example :
    (b : FixedBuffer) × (put_all (empty_buffer 40) items ≡ some b) × Line (empty_buffer 40) items b
put_all_lem_example =
    put_all_lem (empty_buffer 40) items (omega arith)
      (omega arith, (omega arith, (tt, (omega arith, tt))))
