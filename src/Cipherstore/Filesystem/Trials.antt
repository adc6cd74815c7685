-- ===== src/Cipherstore/Filesystem/Trials.antt =====
-- An upload to a directory.
use vulnseal.Prelude.{[], ◌∷◌, replicate}
use vulnseal.Shared.Hex.{Text}
use vulnseal.Cipherstore.Filesystem.{put}
use vulnseal.Cipherstore.Filesystem.Laws.{IsPublished}
use vulnseal.Cipherstore.Filesystem.Published.{put-IsPublished}
use vulnseal.Cipherstore.Filesystem.Sample.{directory, directory_laws}

abbrev digest : Text
digest = replicate 64 b'0'

put-IsPublished_example :
    IsPublished directory directory_laws digest
      (1 ∷ 2 ∷ [])
      []
      (put directory 100 2 digest (1 ∷ 2 ∷ []) [])
put-IsPublished_example = put-IsPublished directory directory_laws digest (1 ∷ 2 ∷ []) 100 2 []
