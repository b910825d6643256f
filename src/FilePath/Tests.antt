-- ===== src/FilePath/Tests.antt =====
-- Runs of utils/paths/path.cc.
use bigdataexpress_c.Base.{◌≡◌, refl, true}
use bigdataexpress_c.FilePath.{init, found, is_directory}

a_directory : is_directory (init "/data" (found 4096 0 0 16877)) ≡ true
unfolding init is_directory
a_directory = refl
