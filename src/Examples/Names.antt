-- ===== src/Examples/Names.antt =====
-- Names at one text.
use seine.Prelude.{◌≡◌, ◌↔◌, true}
use seine.Prelude.Sort.{codes}
use seine.Spec.Validate.Names.{valid_name, IsLabel, valid_name_iff}

valid_name_iff_example : (valid_name "web-1" ≡ true) ↔ IsLabel (codes "web-1")
valid_name_iff_example = valid_name_iff "web-1"
