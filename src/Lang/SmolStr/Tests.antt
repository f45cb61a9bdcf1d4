-- ===== src/Lang/SmolStr/Tests.antt =====
-- lang/src/smol_str.rs: strings of each representation.
use yacuri.Base.{◌≡◌, refl, some, ◌∷◌, replicate, none, false}
use yacuri.Lang.Token.{Text}
use yacuri.Lang.SmolStr.{new, new_inline, as_str, len, is_empty, substring, newline, space}
use yacuri.Lang.SmolStr.Storage.{as_str-new, len-new, new_inline-new}

-- a line end and an indentation of 30
abbrev indentation : Text
indentation = newline ∷ replicate 30 space

indentation-new : new indentation ≡ substring 1 30
unfolding new
indentation-new = refl

as_str-new_example : as_str (new indentation) ≡ some indentation
as_str-new_example = as_str-new indentation

len-new_example : (len (new indentation) ≡ 31) × (is_empty (new indentation) ≡ false)
len-new_example = len-new indentation

new_inline-new_example : new_inline indentation ≡ none
new_inline-new_example = new_inline-new indentation
