-- ===== src/Jxx/SearchPath/Tokens.antt =====
-- The tokens of the search path: no two are the same, and what adding and removing one does.
use chakra_jxx.Base.{
  ◌≡◌, refl, String, true, false, not, [], ◌∷◌, ◌++◌, arith, ◌||◌, ◌&&◌, string_eq,
}
use chakra_jxx.Jxx.FileSystem.{FileSystem}
use chakra_jxx.Jxx.SearchPath.{
  ModuleDirectory, ModuleStorages, create, exists, add_path, remove_path,
}

module _ {P : Type 0} (fs : FileSystem P) where
  -- No token is listed twice.
  abbrev pub DistinctTokens : ModuleStorages P → Type 0
  DistinctTokens [] = Unit
  DistinctTokens (d ∷ ds) = (exists fs ds d.token ≡ false) × DistinctTokens ds

  exists-append :
      (ds : ModuleStorages P) (d : ModuleDirectory P) (s : String)
      → exists fs (ds ++ d ∷ []) s ≡ (exists fs ds s || string_eq.beq d.token s)
  unfolding exists
  exists-append [] d s = ground arith
  exists-append (x ∷ ds) d s = ground (arith, exists-append ds d s)

  append-DistinctTokens :
      (ds : ModuleStorages P) (d : ModuleDirectory P)
      → DistinctTokens ds
      → exists fs ds d.token ≡ false
      → DistinctTokens (ds ++ d ∷ [])
  unfolding exists
  append-DistinctTokens [] d u new = (refl, tt)
  append-DistinctTokens (x ∷ ds) d u new = ground (
    arith,
    exists-append ds d x.token,
    append-DistinctTokens ds d u.1,
    string_eq.beq_iff x.token d.token,
    string_eq.beq_iff d.token x.token,
  )

  token-create : (s : String) → (create fs s).token ≡ s
  unfolding create
  token-create s = refl

  -- Where no token is listed twice, adding a path keeps it so, answers whether the path was new,
  -- and has it listed.
  pub add_path-DistinctTokens :
      (ds : ModuleStorages P) (s : String)
      → DistinctTokens ds
      → DistinctTokens (add_path fs ds s).1
        × ((add_path fs ds s).0 ≡ not (exists fs ds s))
        × ((t : String) → exists fs (add_path fs ds s).1 t ≡ (exists fs ds t || string_eq.beq s t))
  unfolding add_path
  add_path-DistinctTokens ds s u = (
    ground (arith, append-DistinctTokens ds (create fs s) u, token-create s),
    ground arith,
    λ t. ground (arith, exists-append ds (create fs s) t, string_eq.beq_iff s t, token-create s),
  )

  exists-remove_path :
      (ds : ModuleStorages P) (s t : String)
      → DistinctTokens ds
      → exists fs (remove_path fs ds s).1 t ≡ (exists fs ds t && not (string_eq.beq s t))
  unfolding exists remove_path
  exists-remove_path [] s t u = refl
  exists-remove_path (d ∷ ds) s t u = ground (
    arith,
    exists-remove_path ds s t u.1,
    string_eq.beq_iff d.token s,
    string_eq.beq_iff d.token t,
    string_eq.beq_iff s t,
  )

  remove_path_listed :
      (ds : ModuleStorages P) (s : String) → (remove_path fs ds s).0 ≡ exists fs ds s
  unfolding exists remove_path
  remove_path_listed [] s = refl
  remove_path_listed (d ∷ ds) s = ground (arith, remove_path_listed ds s)

  remove_path-DistinctTokens :
      (ds : ModuleStorages P) (s : String)
      → DistinctTokens ds
      → DistinctTokens (remove_path fs ds s).1
  unfolding remove_path
  remove_path-DistinctTokens [] s u = tt
  remove_path-DistinctTokens (d ∷ ds) s u =
      ground (arith, exists-remove_path ds s d.token u.1, remove_path-DistinctTokens ds s u.1)

  -- Where no token is listed twice, removing a path answers whether it was listed, keeps the tokens
  -- distinct, and takes that token, and no other, off the list.
  pub remove_path_lem :
      (ds : ModuleStorages P) (s : String)
      → DistinctTokens ds
      → ((remove_path fs ds s).0 ≡ exists fs ds s)
        × DistinctTokens (remove_path fs ds s).1
        × ((t : String)
            → exists fs (remove_path fs ds s).1 t ≡ (exists fs ds t && not (string_eq.beq s t)))
  remove_path_lem ds s u =
      (remove_path_listed ds s, remove_path-DistinctTokens ds s u, λ t. exists-remove_path ds s t u)

  remove_path-append :
      (ds : ModuleStorages P) (d : ModuleDirectory P) (s : String)
      → d.token ≡ s
      → exists fs ds s ≡ false
      → remove_path fs (ds ++ d ∷ []) s ≡ (true, ds)
  unfolding exists remove_path
  remove_path-append [] d s e new = ground (arith, string_eq.beq_iff d.token s)
  remove_path-append (x ∷ ds) d s e new = ground (arith, remove_path-append ds d s e)

  -- Removing a path that was just added, and was new, restores the search path.
  pub remove_path-add_path :
      (ds : ModuleStorages P) (s : String)
      → exists fs ds s ≡ false
      → remove_path fs (add_path fs ds s).1 s ≡ (true, ds)
  unfolding add_path
  remove_path-add_path ds s new =
      ground (arith, remove_path-append ds (create fs s) s (token-create s))
