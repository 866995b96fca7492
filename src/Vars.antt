-- ===== src/Vars.antt =====
-- src/vars.c and src/vars.h: named options of a link, a bundle or a layer, which the user enables or
-- disables for this side and accepts or denies for the peer. A word of a command is its bytes.
pub mod Lookup
pub mod Examples
use mpdx.Common.{
  ℕ, zero, suc, ◌+◌, Bool, true, false, not, ◌&&◌, List, [], ◌∷◌, ◌==◌, leb, if◌then◌else◌, Mask,
  set_bit, clear_bit,
}

-- `struct optinfo`.
pub record Options : Type 0 where
  pub enable : Mask
  pub accept : Mask

-- `Enabled` and `Acceptable`.
abbrev pub enabled : Options → ℕ → Bool
enabled o x = o.enable x

abbrev pub acceptable : Options → ℕ → Bool
acceptable o x = o.accept x

-- `struct confinfo`; the list ends where the code's has a NULL name.
pub record ConfInfo : Type 0 where
  pub peered : Bool
  pub option : ℕ
  pub name : List ℕ

-- `tolower` on ASCII.
unfoldable pub lower : ℕ → ℕ
lower c = if leb 65 c && leb c 90 then c + 32 else c

-- `strncasecmp(name, word, strlen(word)) == 0`.
unfoldable pub begins_with : List ℕ → List ℕ → Bool
unfolding lower
begins_with name [] = true
begins_with [] (w ∷ word) = false
begins_with (n ∷ name) (w ∷ word) = lower n == lower w && begins_with name word

-- What `FindOpt` returns: -1, -2, or an index.
pub data Found : Type 0 where
  missing ambiguous : Found
  at : ℕ → Found

-- The loop of `FindOpt` at index `k`; a second match ends it.
abbrev pub found_also : ℕ → Found → Found → Found
found_also k missing rest = rest
found_also k found rest = ambiguous

unfoldable pub find_from : ℕ → Found → List ConfInfo → List ℕ → Found
unfolding begins_with
find_from k found [] word = found
find_from k found (c ∷ list) word =
    let unmatched = find_from (suc k) found list word in
    let first = find_from (suc k) (at k) list word in
    if begins_with c.name word then found_also k found first else unmatched

-- `FindOpt`.
unfoldable pub find_opt : List ConfInfo → List ℕ → Found
unfolding find_from
find_opt list word = find_from 0 missing list word

-- `ENABLE`, `DISABLE`, `ACCEPT`, `DENY`; `NO_SCOLD` only keeps a message back.
pub data Which : Type 0 where
  enabling disabling accepting denying : Which

-- `Enable`, `Disable`, `Accept`, `Deny`, the last two for options that concern the peer.
unfoldable pub change : Which → ConfInfo → Options → Options
change enabling c o = record o { enable = set_bit c.option o.enable }
change disabling c o = record o { enable = clear_bit c.option o.enable }
change accepting c o = if c.peered then record o { accept = set_bit c.option o.accept } else o
change denying c o = if c.peered then record o { accept = clear_bit c.option o.accept } else o

unfoldable pub change_at : Which → List ConfInfo → ℕ → Options → Options
unfolding change
change_at which [] k o = o
change_at which (c ∷ list) zero o = change which c o
change_at which (c ∷ list) (suc k) o = change_at which list k o

unfoldable pub change_found : Which → List ConfInfo → Found → Options → Options
unfolding change_at
change_found which list missing o = o
change_found which list ambiguous o = o
change_found which list (at k) o = change_at which list k o

-- `Do`.
unfoldable pub do_options : Which → List (List ℕ) → List ConfInfo → Options → Options
unfolding find_opt change_found
do_options which [] list o = o
do_options which (word ∷ words) list o =
    do_options which words list (change_found which list (find_opt list word) o)

-- `YesCommand` and `NoCommand`; the other commands are one `Do`.
pub yes_command : List (List ℕ) → List ConfInfo → Options → Options
unfolding do_options
yes_command words list o = do_options accepting words list (do_options enabling words list o)

pub no_command : List (List ℕ) → List ConfInfo → Options → Options
unfolding do_options
no_command words list o = do_options denying words list (do_options disabling words list o)
