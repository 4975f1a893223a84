-- ===== src/Headers/Rules.antt =====
-- Which headers a graph may have: the rules that `qstar_graph_validate_headers` stands for.
use qstar.Prelude.{◌⊎◌, Bytes, All}
use qstar.Graph.Target.{Target}
use qstar.Graph.State.{Graph}
use qstar.Paths.Refusals.{IsPackageRelative}
use qstar.Headers.Places.{IsUnderInclude, IsOutput}

-- A header's path is package-relative, by the rules for paths.
abbrev pub IsPrivateHeader : Bytes → Type 0
IsPrivateHeader path = IsPackageRelative path

-- It is under the include directory of the target's package, or an output of an action.
abbrev pub IsPublicHeader : Graph → Target → Bytes → Type 0
IsPublicHeader graph target path =
    IsPrivateHeader path × (IsUnderInclude target path ⊎ IsOutput graph path)

abbrev pub HasHeaders : Graph → Target → Type 0
HasHeaders graph t =
    All (IsPublicHeader graph t) t.public_headers × All IsPrivateHeader t.private_headers
