-- ===== src/MimeTypes/Table.antt =====
-- libs/static_files/src/static_files_types.inl: the extensions with their types, as the file lists
-- them. A row `P{ext_u32("7z\0"), "application/x-7z-compressed"sv}` is the pair of its two texts.
mod ToC
mod ToG
mod ToL
mod ToN
mod ToQ
mod ToS
mod ToW
mod ToZ
use Prim.Native.String.{String}
use mathlib.Core.List.{List, [], ◌++◌}
use ToC.{types_to_c}
use ToG.{types_to_g}
use ToL.{types_to_l}
use ToN.{types_to_n}
use ToQ.{types_to_q}
use ToS.{types_to_s}
use ToW.{types_to_w}
use ToZ.{types_to_z}

unfoldable pub types : List (String × String)
unfolding types_to_c types_to_g types_to_l types_to_n types_to_q types_to_s types_to_w types_to_z
types =
    types_to_c
    ++ (types_to_g
        ++ (types_to_l
            ++ (types_to_n ++ (types_to_q ++ (types_to_s ++ (types_to_w ++ types_to_z))))))
