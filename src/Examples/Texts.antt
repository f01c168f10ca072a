-- ===== src/Examples/Texts.antt =====
-- JSON on concrete texts.
use rdispatch.Common.{◌≡◌, refl}
use rdispatch.Common.Text.{bytes, utf8_char}
use rdispatch.Common.Json.{null, number, text, end, field, lookup, ok}
use rdispatch.Encoding.Utf8.{
  decode, decode_from, decode_rune, decode_two, is_tail, decode_four, decode_three,
}
use rdispatch.Encoding.Codec.{marshal, unmarshal}
use rdispatch.Encoding.Number.{
  digits, exponent, fraction, is_digit, read_number, signed, some_digits, whole,
}
use rdispatch.Encoding.Parse.{
  parse, finish, read_json, value_of, token, members_of, first_member, member, read_text, colon,
  first_item, items_of, keep, literal, next_item, next_member, quoted, strip, word,
}
use rdispatch.Encoding.Read.{
  skip, is_space, read_runes, read_piece, before, escaped, join_hex, low_half, pair_up, read_escape,
  read_four, read_low, unhex,
}
use rdispatch.Encoding.Scalar.{as_scalar}
use rdispatch.Encoding.Write.{
  codes, write_json, write_fields, write_more, write_text, write_runes, write_rune, is_hidden,
  write_hex, hex_digit,
}
use rdispatch.Encoding.Utf8Laws.{encode}
use rdispatch.Encoding.Sort.{sort_json, sort_fields, insert_field, str_lt}

-- White space, a number, and a key that comes twice.
loose_json :
    unmarshal (bytes " { \"n\" : -1.5e3 , \"k\": true, \"k\":\"\\u00e9\" } ")
    ≡ ok (field "n" (number "-1.5e3") (field "k" (text "é") end))
unfolding unmarshal parse finish read_json decode decode_from bytes value_of token skip is_space
    decode_rune members_of first_member member read_text read_runes read_piece lookup utf8_char
    colon digits exponent first_item fraction is_digit items_of keep literal next_item next_member
    quoted read_number signed some_digits strip whole word before escaped join_hex low_half pair_up
    read_escape read_four read_low unhex as_scalar decode_four decode_three decode_two is_tail codes
loose_json = refl

-- Keys out of order, and characters that are escaped.
notice_json :
    marshal
      (field "subject" (text "a<b \"é\"\n") (field "body" (text "") (field "metadata" null end)))
    ≡ bytes "{\"body\":\"\",\"metadata\":null,\"subject\":\"a\\u003cb \\\"é\\\"\\n\"}"
unfolding marshal bytes encode write_json write_fields write_more sort_json sort_fields insert_field
    str_lt write_text write_runes codes write_rune is_hidden write_hex hex_digit utf8_char
notice_json = refl
