-- ===== src/Vars/Examples.antt =====
-- Commands on the options of a link, and the property of src/vars.c at them.
use mpdx.Common.{ℕ, true, List, [], ◌∷◌, ◌≡◌, ◌==◌, if◌then◌else◌, no_bits}
use mpdx.Vars.{Options, ConfInfo, enabling, do_options}
use mpdx.Vars.Lookup.{matches, first_match, change_option, do_options_one}

-- The options `pap` and `protocomp`, and the word `Pa`.
abbrev link_options : List ConfInfo
link_options =
    record { peered = true; option = 0; name = 112 ∷ 97 ∷ 112 ∷ [] }
    ∷ record {
      peered = true;
      option = 7;
      name = 112 ∷ 114 ∷ 111 ∷ 116 ∷ 111 ∷ 99 ∷ 111 ∷ 109 ∷ 112 ∷ [];
    }
    ∷ []

abbrev word : List ℕ
word = 80 ∷ 97 ∷ []

abbrev no_options : Options
no_options = record { enable = no_bits; accept = no_bits }

do_options_one_example : do_options enabling (word ∷ []) link_options no_options ≡ (
    if matches link_options word == 1
    then change_option enabling (first_match link_options word) no_options
    else no_options)
do_options_one_example = do_options_one enabling word link_options no_options
