-- ===== src/Paths/Relative.antt =====
-- The test of a path in src/graph.c and the reason that is given when it fails.
use qstar.Prelude.{◌≡◌, ◌↔◌, true, CString, arith}
use qstar.Paths.{path_is_package_relative, package_relative, path_package_relative_reason}

-- A path is package-relative exactly if no other reason is found against it, so that every path that is
-- refused is refused with the rule that it breaks.
pub is_package_relative-reason :
    (path : CString)
    → (path_is_package_relative path ≡ true)
      ↔ (path_package_relative_reason path ≡ package_relative)
unfolding path_is_package_relative path_package_relative_reason
is_package_relative-reason path = ground arith
