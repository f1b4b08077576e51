-- ===== src/Codecs/Cut.antt =====
-- What the tag of `makeGzip` of tag_gzip.go loses.
