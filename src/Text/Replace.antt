-- ===== src/Text/Replace.antt =====
-- strings.ReplaceAll of a text that is not empty.
use vela_dns.Base.{ℕ, zero, suc, ◌-◌, if◌then◌else◌, [], ◌∷◌, ◌++◌, length}
use vela_dns.Text.{Bytes, has_prefix}

-- Copies a text, with `new` for each `old` that begins behind the bytes that are still to be left out.
unfoldable pub replace_from : Bytes → Bytes → ℕ → Bytes → Bytes
unfolding has_prefix
replace_from old new skip [] = []
replace_from old new (suc skip) (c ∷ cs) = replace_from old new skip cs
replace_from old new zero (c ∷ cs) =
    let replaced = new ++ replace_from old new (length old - 1) cs in
    let copied = c ∷ replace_from old new zero cs in
    if has_prefix old (c ∷ cs) then replaced else copied

unfoldable pub replace_all : Bytes → Bytes → Bytes → Bytes
unfolding replace_from
replace_all old new s = replace_from old new zero s
