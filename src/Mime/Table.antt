-- ===== src/Mime/Table.antt =====
-- The pairs that fs/mime-inference.cc inserts into its map, in the order of the calls.
mod DigitToD
mod EToK
mod LToO
mod PToR
mod SToU
mod VToZ
use ndnfs_port.Prelude.{String, List, ◌++◌}
use DigitToD.{digit_to_d}
use EToK.{e_to_k}
use LToO.{l_to_o}
use PToR.{p_to_r}
use SToU.{s_to_u}
use VToZ.{v_to_z}

unfoldable pub inserted_pairs : List (String × String)
unfolding digit_to_d e_to_k l_to_o p_to_r s_to_u v_to_z
inserted_pairs = digit_to_d ++ (e_to_k ++ (l_to_o ++ (p_to_r ++ (s_to_u ++ (v_to_z)))))
