-- ===== src/Tests/Text.antt =====
-- Runs of the text functions of seaice/util/hash_util.cpp.
use seaice.Prelude.{◌≡◌, ◌≤◌, refl, [], ◌∷◌, some, arith, length, map, flatten}
use seaice.HashUtil.{hexstring_from_data, data_from_hexstring, base64encode, base64decode}
use seaice.HashUtil.Hex.{
  lower, data_from_hexstring-hexstring_from_data, hexstring_from_data-data_from_hexstring,
}
use seaice.HashUtil.Base64.{base64decode-base64encode}
use seaice.HashUtil.Split.{replace_string, split}
use seaice.HashUtil.Split.Replace.{expand, replace_string_lem}
use seaice.HashUtil.Split.Fields.{join}
use seaice.HashUtil.Split.Join.{join-split, split_most}

data_from_hexstring-hexstring_from_data_example :
    data_from_hexstring (hexstring_from_data (171 ∷ 5 ∷ [])) ≡ some (171 ∷ 5 ∷ [])
data_from_hexstring-hexstring_from_data_example =
    data_from_hexstring-hexstring_from_data (171 ∷ 5 ∷ []) (omega arith, (omega arith, tt))

taken : data_from_hexstring (65 ∷ 98 ∷ []) ≡ some (171 ∷ [])
unfolding data_from_hexstring
taken = refl

hexstring_from_data-data_from_hexstring_example :
    hexstring_from_data (171 ∷ []) ≡ map lower (65 ∷ 98 ∷ [])
hexstring_from_data-data_from_hexstring_example =
    hexstring_from_data-data_from_hexstring (65 ∷ 98 ∷ []) (171 ∷ []) taken

base64decode-base64encode_example :
    base64decode (base64encode (255 ∷ 0 ∷ 16 ∷ 7 ∷ [])) ≡ 255 ∷ 0 ∷ 16 ∷ 7 ∷ []
base64decode-base64encode_example =
    base64decode-base64encode (255 ∷ 0 ∷ 16 ∷ 7 ∷ [])
      (omega arith, (omega arith, (omega arith, (omega arith, tt))))

-- "a,b,c" cut at the commas.
split-run : split (97 ∷ 44 ∷ 98 ∷ 44 ∷ 99 ∷ []) 44 2 ≡ (97 ∷ []) ∷ (98 ∷ 44 ∷ 99 ∷ []) ∷ []
unfolding split
split-run = refl

replace_string_lem_example :
    replace_string (97 ∷ 44 ∷ 98 ∷ []) 44 (44 ∷ 44 ∷ [])
    ≡ flatten (map (expand 44 (44 ∷ 44 ∷ [])) (97 ∷ 44 ∷ 98 ∷ []))
replace_string_lem_example = replace_string_lem 44 (44 ∷ 44 ∷ []) (97 ∷ 44 ∷ 98 ∷ [])

join-split_example : join 44 (split (97 ∷ 44 ∷ 98 ∷ []) 44 0) ≡ 97 ∷ 44 ∷ 98 ∷ []
join-split_example = join-split 44 0 97 (44 ∷ 98 ∷ [])

split_most_example : length (split (97 ∷ 44 ∷ 98 ∷ 44 ∷ 99 ∷ []) 44 2) ≤ 2
split_most_example = split_most 44 2 97 (44 ∷ 98 ∷ 44 ∷ 99 ∷ []) (omega arith) (omega arith)
