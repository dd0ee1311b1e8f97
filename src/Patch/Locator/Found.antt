-- ===== src/Patch/Locator/Found.antt =====
-- What `resolve_name` of src/patch/locator.rs finds.
use stgit.Prelude.{
  ℕ, zero, suc, true, some, List, [], ◌∷◌, ◌≡◌, arith, contains, eq_refl, get_elem?, text_Eq, ℤ,
  pos, negsuc,
}
use stgit.Patch.Name.{PatchName}
use stgit.Patch.Outcome.{ok, bind-ok}
use stgit.Patch.Spec.{PatchLocator}
use stgit.Patch.Locator.{Libraries, unwrap-ok}
use stgit.Patch.Locator.Resolve.{resolve_name, patch_at}
use stgit.Stack.Access.{StackStateAccess, all_patches}

contains-get_elem? :
    (xs : List PatchName) (i : ℕ) (pn : PatchName)
    → get_elem? xs i ≡ some pn
    → contains xs pn ≡ true
unfolding contains
contains-get_elem? [] i pn h = cc
contains-get_elem? (x ∷ xs) zero pn h = ground (arith, eq_refl pn)
contains-get_elem? (x ∷ xs) (suc i) pn h = ground (arith, contains-get_elem? xs i pn)

module _ (lib : Libraries) {S : Type 0} ⦃access : StackStateAccess S⦄ (s : S) where
  patch_at-found :
      (at : ℤ) (pn : PatchName) → patch_at lib s at ≡ ok pn → contains (all_patches s) pn ≡ true
  unfolding patch_at
  patch_at-found (pos i) pn h = contains-get_elem? (all_patches s) i pn (unwrap-ok _ pn h)
  patch_at-found (negsuc i) pn h = cc

  -- A name that `resolve_name` returns is a patch of one of the three lists of the stack.
  pub resolve_name-found :
      (locator : PatchLocator) (pn : PatchName)
      → resolve_name lib s locator ≡ ok pn
      → contains (all_patches s) pn ≡ true
  unfolding resolve_name
  resolve_name-found locator pn h =
      let (l, h0, h1) = bind-ok _ _ pn h in
      let (start, h2, h3) = bind-ok _ _ pn h1 in
      let (steps, h4, h5) = bind-ok _ _ pn h3 in
      let (at, h6, h7) = bind-ok _ _ pn h5 in patch_at-found at pn h7
