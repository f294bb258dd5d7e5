-- ===== src/Tests/Tokens.antt =====
-- Tokens under a short and under a long prefix.
use ouchservice.Prelude.{ℕ, List, arith, codes, bytes_eq_instance}
use ouchservice.Core.Alpha.{view}
use ouchservice.Domain.TokenRegistry.{registry, c_string, sequential_token}
use ouchservice.Domain.TokenRegistry.Allocate.{allocate_many, Distinct, allocate_many-Distinct}

abbrev short : List ℕ
short = codes "C-"

abbrev long : List ℕ
long = codes "CERT-"

allocate_many-Distinct_example : Distinct (allocate_many 3 (registry short))
unfolding registry
allocate_many-Distinct_example =
    allocate_many-Distinct 3 (registry short) (unfold c_string in omega arith) (omega arith)

-- The token that `allocate` hands out first.
abbrev first_token : List ℕ
first_token = view (sequential_token short 1)
