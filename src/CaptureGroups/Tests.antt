-- ===== src/CaptureGroups/Tests.antt =====
-- Runs of src/cgrps.h.
use regex.Base.{◌≡◌, true}
use regex.CaptureGroups.{
  mark_closure_map_backref, cgrp_has_backref, has_backref-mark, empty_cgrp_map,
}

has_backref-mark_example : cgrp_has_backref (mark_closure_map_backref empty_cgrp_map 3) 3 ≡ true
unfolding cgrp_has_backref
has_backref-mark_example = has_backref-mark 0 3 3
