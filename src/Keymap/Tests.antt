-- ===== src/Keymap/Tests.antt =====
-- Runs of the keyboard map (src/keymap.rs).
use veil_os.Keymap.{find, translate}
use veil_os.Base.{◌≡◌, refl, true, none}

shift_is_none : translate 42 true ≡ none
unfolding translate find
shift_is_none = refl
