-- ===== src/Clipboard/Tests.antt =====
-- Runs of the clipboard (src/clipboard.rs).
use veil_os.Clipboard.{Clipboard, cleared, retain, set_text}
use veil_os.Vfs.{eq_bytes}
use veil_os.Base.{◌≡◌, refl, [], ◌∷◌}

abbrev two : Clipboard
two = set_text (set_text (set_text cleared (1 ∷ [])) (2 ∷ [])) (1 ∷ [])

moved_up : two.history ≡ (1 ∷ []) ∷ (2 ∷ []) ∷ []
unfolding set_text retain eq_bytes cleared
moved_up = refl
