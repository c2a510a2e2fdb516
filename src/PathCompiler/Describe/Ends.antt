-- ===== src/PathCompiler/Describe/Ends.antt =====
-- The groups of what `description::make` of path_compiler.cc puts behind the tokens.
use http_router.Base.{
  drop_last, ℕ, ◌≡◌, refl, ◌∙◌, Bool, true, false, ◌||◌, not, ◌++◌, arith, Bytes, codes,
  if◌then◌else◌,
}
use http_router.PathCompiler.Key.{Compile}
use http_router.PathCompiler.Describe.{finish}
use http_router.PathCompiler.Describe.Groups.{
  groups, HasGroups, HasGroups-append, groups_plain, plain-HasGroups,
}

-- The texts that `make` adds at the end
slash_end : HasGroups 0 (codes "(?:\\/(?=$))?")
unfolding groups
slash_end rest = omega (arith, groups_plain b'?' rest refl refl)

open_end : HasGroups 0 (codes "(?=\\/|$)")
unfolding groups
open_end rest = omega (arith, groups_plain b')' rest refl refl)

pub rest_end : HasGroups 1 (codes "(.*)")
unfolding groups
rest_end rest = omega (arith, groups_plain b')' rest refl refl)

pub append_none : (n : ℕ) (r t : Bytes) → HasGroups n r → HasGroups 0 t → HasGroups n (r ++ t)
append_none n r t h k rest = HasGroups-append n 0 r t h k rest ∙ omega arith

pub finish-HasGroups :
    (n : ℕ) (slash : Bool) (options : Compile) (r : Bytes)
    → HasGroups n r
    → (slash ≡ true → HasGroups n (drop_last (drop_last r)))
    → HasGroups n (finish slash options r)
unfolding finish
finish-HasGroups n slash options r h k = go options.strict options.end slash k
  where
    cut :
        (slash : Bool)
        → (slash ≡ true → HasGroups n (drop_last (drop_last r)))
        → HasGroups n (if slash then drop_last (drop_last r) else r)
    cut true k = k refl
    cut false k = h

    loose :
        (strict slash : Bool)
        → (slash ≡ true → HasGroups n (drop_last (drop_last r)))
        → HasGroups n (
            if strict
            then r
            else (if slash then drop_last (drop_last r) else r) ++ codes "(?:\\/(?=$))?")
    loose true slash k = h
    loose false slash k = append_none n _ (codes "(?:\\/(?=$))?") (cut slash k) slash_end

    go :
        (strict end slash : Bool)
        → (slash ≡ true → HasGroups n (drop_last (drop_last r)))
        → HasGroups n (
            let before =
              (if strict
                then r
                else (if slash then drop_last (drop_last r) else r) ++ codes "(?:\\/(?=$))?") in
            if end
            then before ++ codes "$"
            else if not strict || not slash
            then before ++ codes "(?=\\/|$)"
            else before)
    go strict true slash k =
        append_none n _ (codes "$") (loose strict slash k) (plain-HasGroups (codes "$") (refl, tt))
    go true false true k = h
    go true false false k = append_none n _ (codes "(?=\\/|$)") h open_end
    go false false slash k = append_none n _ (codes "(?=\\/|$)") (loose false slash k) open_end
