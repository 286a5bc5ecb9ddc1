-- ===== src/Convex/Tests.antt =====
-- The layouts at small dimensions.
use madlibport.Base.{arith}
use madlibport.Convex.Layouts.{TileWhenWhole, layouts-TileWhenWhole}

layouts-TileWhenWhole_example : TileWhenWhole 20 30 4 10 5
layouts-TileWhenWhole_example = layouts-TileWhenWhole 20 30 4 10 5 (omega arith)
