-- ===== src/Core/RedisCommit/Checks.antt =====
-- What the checks of a stream append let through.
use mas_framework.Common.{◌≡◌, List, String, arith}
use mas_framework.Common.Results.{ok}
use mas_framework.Core.RedisCommit.{StreamAppend, make_append}

pub make_append-fields :
    (stream : String) (fields : List (String × String)) (a : StreamAppend)
    → make_append stream fields ≡ ok a
    → (a.stream ≡ stream) × (a.fields ≡ fields)
unfolding make_append
make_append-fields stream fields a h = ground arith
