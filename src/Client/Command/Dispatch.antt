-- ===== src/Client/Command/Dispatch.antt =====
-- test/client.cc: which command a line is taken for.
use ndnfs_port.Prelude.{Bytes, true, false, ◌≡◌, ◌≢◌, refl, [], ◌∷◌, ◌++◌, ◌==◌, arith}
use ndnfs_port.External.{Env}
use ndnfs_port.Client.Console.Words.{IsFreeOf, join, split-join}
use ndnfs_port.Client.Command.{fetch_command, show_command, starts_with, occurs, fetching, obey}

starts_with-append : (p s : Bytes) → starts_with p (p ++ s) ≡ true
unfolding starts_with
starts_with-append [] s = refl
starts_with-append (c ∷ p) s =
    let e : (c == c) ≡ true = ground arith in rw e (starts_with-append p s)

occurs-of_starts_with : (p s : Bytes) → starts_with p s ≡ true → occurs p s ≡ true
unfolding occurs
occurs-of_starts_with p [] h = h
occurs-of_starts_with p (c ∷ s) h = rw h refl

occurs-middle : (p a b : Bytes) → occurs p (a ++ (p ++ b)) ≡ true
unfolding occurs
occurs-middle p [] b = occurs-of_starts_with p (p ++ b) (starts_with-append p b)
occurs-middle p (c ∷ a) b = ground (arith, occurs-middle p a b)

module _ (E : Env) where
  -- "fetch ", a name and a file name with a space between them, neither of which has spaces, start a fetch
  -- of that name into that file, which is not empty, if the line does not contain "show ".
  pub obey-fetch :
      (name_str file_name : Bytes)
      → IsFreeOf b' ' name_str
      → IsFreeOf b' ' file_name
      → file_name ≢ []
      → occurs show_command (fetch_command ++ join b' ' (name_str ∷ file_name ∷ [])) ≡ false
      → obey E (fetch_command ++ join b' ' (name_str ∷ file_name ∷ []))
        ≡ fetching (E.ndn.parse_uri name_str) file_name
  unfolding obey fetch_command
  obey-fetch name_str file_name name_free file_free some_file no_show =
      rw
        (
          no_show,
          occurs-middle fetch_command [] (join b' ' (name_str ∷ file_name ∷ [])),
          split-join b' ' (name_str ∷ file_name ∷ []) (name_free, (file_free, tt)) some_file,
        )
        refl
