-- ===== src/Tools/Tests.antt =====
-- The theorems on src/utils/tools.rs at the sample.
use aralez.Prelude.{◌≡◌, refl, ◌↔◌, true, some, List, [], ◌∷◌, list_beq, nat_eq, list_eq}
use mathlib.Core.Option
use aralez.Text.{Str, bytes}
use aralez.DashMap.{get}
use aralez.Structs.{HeaderList}
use aralez.Samples.{upstreams, upstreams-IsUpstreams, found, found-IsUpstreams, api_headers}
use aralez.Tools.{compare_dashmaps}
use aralez.Tools.Compare.{SameUpstreams, compare_dashmaps_iff}
use aralez.Tools.MergeHeaders.{merged}

compare_dashmaps_iff_example :
    (compare_dashmaps upstreams found ≡ true) ↔ SameUpstreams upstreams found
compare_dashmaps_iff_example =
    compare_dashmaps_iff upstreams found upstreams-IsUpstreams found-IsUpstreams

abbrev injected : List (Str × HeaderList)
injected = (bytes "/", (bytes "g", bytes "w") ∷ []) ∷ []

merged_run :
    merged (get (bytes "/") api_headers) (get (bytes "/") injected)
    ≡ some ((bytes "k", bytes "v") ∷ (bytes "g", bytes "w") ∷ [])
unfolding get list_beq
merged_run = refl
