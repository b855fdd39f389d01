-- ===== src/Examples/Escapes.antt =====
-- A name with a slash and a blank.
use argus.Prelude.{◌≡◌, refl, arith}
use argus.Text.{Text, codes}
use argus.Encode.{file_encode, punct_encode, url_encode, encode, escape, should_escape_file}
use argus.Encode.Decode.{unescape, unescape_lem}

abbrev name : Text
name = codes "a/b c"

file_encode_test : file_encode name ≡ codes "a~2Fb~20c"
unfolding file_encode encode escape should_escape_file
file_encode_test = refl

unescape_lem_example :
    (unescape b'~' (file_encode name) ≡ name)
    × (unescape b'~' (punct_encode name) ≡ name)
    × (unescape b'%' (url_encode name) ≡ name)
unescape_lem_example =
    unescape_lem name (omega arith, (omega arith, (omega arith, (omega arith, (omega arith, tt)))))
